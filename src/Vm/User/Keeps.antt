-- ===== src/Vm/User/Keeps.antt =====
-- What each method of the machine does in user mode.
use mathlib.Core.Path.{subst}
use zirgen.Prelude.{
  ==_iff, ℕ, ◌+◌, ◌<◌, ◌≡◌, ◌⊎◌, inl, inr, refl, sym, if_both, ◌∙◌, Bool-cases, ◌==◌, if◌then◌else◌,
  arith,
}
use zirgen.Prelude.Result.{Result, ok, throws, Post}
use zirgen.Word.{IsWord}
use zirgen.Rv32.Context.{M, Error}
use zirgen.Rv32.Context.Laws.{IsPc, Any, Ends, Ensures, Ends-bind, Ends-weaken}
use zirgen.Vm.{
  Host, Vm, lift, get_pc, set_pc, get_mode, regs_word, load_mem, store_mem, load_reg, store_reg,
}
use zirgen.Vm.User.{IsUserData, IsUserReg, SameView, IsLawful, Thrown, InUser}

-- A call of the host, from what the host promises of it.
pub lift-Ends :
    {H A : Type 0} {I : Vm H → Type 0} {J : Vm H → Type 0} {R R' : Error → Type 0} {Q : A → Type 0}
    (P : Vm H → A → H → Type 0) (m : M H A)
    → ((s : Vm H) → I s → Post (λ (r : A × H). P s r.0 r.1) R (m s.host))
    → ((s : Vm H) → I s → (a : A) (h : H) → P s a h → Q a × J (record s { host = h }))
    → ((e : Error) → R e → R' e)
    → Ends I J R' Q (lift m)
lift-Ends {H} {A} {I} {J} {R} {R'} {Q} P m p next others = record {
  from = λ s i. go s i (m s.host) (p s i);
}
  where
    go :
        (s : Vm H)
        → I s
        → (r : Result Error (A × H)) → Post (λ (r : A × H). P s r.0 r.1) R r
        → Post
            (λ (r : A × Vm H). Q r.0 × J r.1)
            R'
            (elim r [ ok (a, h) ↦ ok (a, record s { host = h }) | throws e ↦ throws e ])
    go s i (ok (a, h)) q = next s i a h q
    go s i (throws e) r = others e r

-- A store to a word of the user's is one to another word than the kernel's.
elsewhere :
    (word val j old : ℕ)
    → IsUserData word ⊎ IsUserReg word
    → (IsUserData j → ⊥)
    → (IsUserReg j → ⊥)
    → (if j == word then val else old) ≡ old
elsewhere word val j old may d r = elim (Bool-cases (j == word)) [
  | inl e ↦
      let same : word ≡ j = sym ((==_iff j word).0 e) in
      absurd (elim may [
        | inl data' ↦ d (subst IsUserData same data')
        | inr reg ↦ r (subst IsUserReg same reg)
      ])
  | inr e ↦ rw e refl
]

user_reg :
    (mode reg : ℕ)
    → mode ≡ 0
    → reg < 32
    → IsUserData ((if reg == 0 then regs_word mode + 64 else regs_word mode) + reg)
      ⊎ IsUserReg ((if reg == 0 then regs_word mode + 64 else regs_word mode) + reg)
user_reg mode reg e below = elim (Bool-cases (reg == 0)) [
  | inl z ↦ inr (inr (ground (arith, e, z)))
  | inr z ↦ inr (inl (ground (arith, e, z)))
]

module _ {H : Type 0} (c : Host H) (view : H → ℕ → ℕ) (R : Error → Type 0)
    (lawful : IsLawful c view R) (first : ℕ → ℕ) (Here : ℕ → Type 0) where
  abbrev pub User : Vm H → Type 0
  User = InUser view first Here

  -- The same memory in the place of another.
  same-User :
      (s : Vm H) (h : H) → User s → SameView (view s.host) (view h) → User (record s { host = h })
  same-User s h u same = record {
    mode = u.mode;
    pc = u.pc;
    here = u.here;
    words = λ j. subst IsWord (sym (same j)) (u.words j);
    kept = λ j d r. same j ∙ u.kept j d r;
  }

  -- What a word holds that user mode does not change.
  abbrev pub Loaded : ℕ → ℕ → Type 0
  Loaded word v = IsWord v × ((IsUserData word → ⊥) → (IsUserReg word → ⊥) → v ≡ first word)

  pub load_mem-User : (word : ℕ) → Ensures User (Thrown R) (Loaded word) (load_mem c word)
  load_mem-User word =
      lift-Ends _ (c.load word) (λ s u. lawful.load word s.host)
        (λ s u v h (e, same).
          ((subst IsWord (sym e) (u.words word), λ d r. e ∙ u.kept word d r), same-User s h u same))
        (λ e r. inl r)

  -- A callback of the host.
  pub call-User :
      (m : M H (Unit {0}))
      → ((h : H) → Post (λ (r : Unit {0} × H). SameView (view h) (view r.1)) R (m h))
      → Ensures User (Thrown R) Any (lift m)
  call-User m p =
      lift-Ends _ m (λ s u. p s.host) (λ s u _ h same. (tt, same-User s h u same)) (λ e r. inl r)

  -- A word of the user's is stored.
  pub store_mem-User :
      (word val : ℕ)
      → IsUserData word ⊎ IsUserReg word
      → IsWord val
      → Ensures User (Thrown R) Any (store_mem c word val)
  store_mem-User word val may w =
      lift-Ends _ (c.store word val) (λ s u. lawful.store word val s.host)
        (λ s u _ h stored. (
          tt,
          record {
            mode = u.mode;
            pc = u.pc;
            here = u.here;
            words = λ j. subst IsWord (sym (stored j)) (if_both IsWord (j == word) w (u.words j));
            kept = λ j d r. stored j ∙ elsewhere word val j (view s.host j) may d r ∙ u.kept j d r;
          },
        ))
        (λ e r. inl r)

  pub get_mode-User : Ensures User (Thrown R) (λ mode. mode ≡ 0) get_mode
  unfolding get_mode
  get_mode-User = record { from = λ s u. (u.mode, u) }

  pub get_pc-User : Ensures User (Thrown R) (λ pc. IsPc pc × Here pc) get_pc
  unfolding get_pc
  get_pc-User = record { from = λ s u. ((u.pc, u.here), u) }

  pub set_pc-User :
      (pc : ℕ) → IsPc pc → Ends User (InUser view first Any) (Thrown R) Any (set_pc pc)
  unfolding set_pc
  set_pc-User pc h = record {
    from = λ s u. (tt, record { mode = u.mode; pc = h; here = tt; words = u.words; kept = u.kept });
  }

  pub load_reg-User : (reg : ℕ) → Ensures User (Thrown R) IsWord (load_reg c reg)
  unfolding load_reg
  load_reg-User reg =
      Ends-bind get_mode-User
        λ mode e. Ends-weaken (λ v (w, _). w) (load_mem-User (regs_word mode + reg))

  pub store_reg-User :
      (reg v : ℕ) → reg < 32 → IsWord v → Ensures User (Thrown R) Any (store_reg c reg v)
  unfolding store_reg
  store_reg-User reg v below w = Ends-bind get_mode-User λ mode e.
      store_mem-User ((if reg == 0 then regs_word mode + 64 else regs_word mode) + reg) v
        (user_reg mode reg e below) w
