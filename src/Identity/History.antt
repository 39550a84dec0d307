-- ===== src/Identity/History.antt =====
-- The recorded history is a chain of allowed transitions from an initial state to the current one.
use speaker_attributed_stt.Prelude.{
  ℕ, suc, ◌+◌, String, ◌≡◌, ◌≢◌, refl, sym, ap, subst, true, List, [], ◌∷◌, ◌++◌, arith, length,
  length-append,
}
use speaker_attributed_stt.Errors.{ok}
use speaker_attributed_stt.Identity.{
  IdentityState, StateTransition, Machine, is_initial, is_allowed, make_machine, can_transition,
  transition, revision, step_of, moved,
}

-- The transitions lead from `from` to `to`, each allowed, with revisions counted from `n`.
abbrev pub IsChain : IdentityState → ℕ → List StateTransition → IdentityState → Type 0
IsChain from n [] to = from ≡ to
IsChain from n (t ∷ ts) to =
    (t.from_state ≡ from)
    × (is_allowed from t.to_state ≡ true)
    × (t.revision ≡ n)
    × IsChain t.to_state (suc n) ts to

IsChain-append :
    (from : IdentityState) (n : ℕ) (ts : List StateTransition) {mid : IdentityState}
    (t : StateTransition)
    → IsChain from n ts mid
    → t.from_state ≡ mid
    → is_allowed mid t.to_state ≡ true
    → t.revision ≡ n + length ts
    → IsChain from n (ts ++ t ∷ []) t.to_state
IsChain-append from n [] t h e a r = (ground arith, ground arith, omega arith, refl)
IsChain-append from n (u ∷ us) t h e a r =
    (h.0, h.1, h.2, IsChain-append u.to_state (suc n) us t h.3 e a (omega arith))

-- The history is a chain from an initial state, with the revisions 2, 3, ...
pub record IsAudited (m : Machine) : Type 0 where
  pub initial : IdentityState
  pub entry : is_initial initial ≡ true
  pub chain : IsChain initial 2 m.history m.state

-- A machine is made exactly in an initial state, and is audited.
pub make_machine-IsAudited :
    (s : IdentityState) (m : Machine)
    → make_machine s ≡ ok m
    → (is_initial s ≡ true) × (m.state ≡ s) × IsAudited m
unfolding make_machine
make_machine-IsAudited s m e =
    let p : m ≡ record { state = s; history = [] } = ground arith in
    let entry : is_initial s ≡ true = ground arith in
    (
      entry,
      ap (λ (n : Machine). n.state) p,
      subst IsAudited (sym p) (record { initial = s; entry = entry; chain = refl }),
    )

pub transition-eq-ok :
    (m m' : Machine) (to : IdentityState) (reason : String) (t : StateTransition)
    → transition m to reason ≡ ok (t, m')
    → (can_transition m to ≡ true) × (t ≡ step_of m to reason) × (m' ≡ moved m to reason)
unfolding transition
transition-eq-ok m m' to reason t e = ground arith

moved-IsAudited :
    (m : Machine) (to : IdentityState) (reason : String)
    → IsAudited m
    → can_transition m to ≡ true
    → IsAudited (moved m to reason)
unfolding can_transition
moved-IsAudited m to reason h allowed = record {
  initial = h.initial;
  entry = h.entry;
  chain =
      IsChain-append h.initial 2 m.history (step_of m to reason) h.chain refl allowed
        (unfold revision in omega arith);
}

-- A transition that an audited machine accepts is one that the table allows, leaves the machine
-- audited and in the state that was asked for, and raises its revision by one, to the revision that
-- the transition records.
pub transition-IsAudited :
    (m m' : Machine) (to : IdentityState) (reason : String) (t : StateTransition)
    → IsAudited m
    → transition m to reason ≡ ok (t, m')
    → IsAudited m'
      × (is_allowed m.state to ≡ true)
      × (m'.state ≡ to)
      × (t.revision ≡ revision m')
      × (revision m' ≡ revision m + 1)
transition-IsAudited m m' to reason t h e =
    let (allowed, et, em) = transition-eq-ok m m' to reason t e in
    (
      subst IsAudited (sym em) (moved-IsAudited m to reason h allowed),
      (unfold can_transition in allowed),
      ap (λ (n : Machine). n.state) em,
      rw (et, em)
          (unfold revision in omega (arith, length-append m.history (step_of m to reason ∷ []))),
      rw em (unfold revision in omega (arith, length-append m.history (step_of m to reason ∷ []))),
    )

-- No transition leads back to `provisional`, none leaves `unknown`, and `enrolled` is left only for
-- `ambiguous`.
pub allowed_edges :
    (from to : IdentityState)
    → is_allowed from to ≡ true
    → (to ≢ IdentityState.provisional)
      × (from ≢ IdentityState.unknown)
      × (from ≡ IdentityState.enrolled → to ≡ IdentityState.ambiguous)
unfolding is_allowed
allowed_edges from to h = ground arith

chain_end :
    (from : IdentityState) (n : ℕ) (t : StateTransition) (ts : List StateTransition)
    {to : IdentityState}
    → IsChain from n (t ∷ ts) to
    → to ≢ IdentityState.provisional
chain_end from n t [] h = rw (sym h.3) (allowed_edges from t.to_state h.1).0
chain_end from n t (u ∷ us) h = chain_end t.to_state (suc n) u us h.3

-- Once it has moved, an audited machine is never provisional again.
pub IsAudited-ne-provisional :
    (m : Machine) → IsAudited m → m.history ≢ [] → m.state ≢ IdentityState.provisional
IsAudited-ne-provisional m h moved_once = go m.history refl h.chain
  where
    go :
        (l : List StateTransition)
        → m.history ≡ l
        → IsChain h.initial 2 l m.state
        → m.state ≢ IdentityState.provisional
    go [] e c = absurd (moved_once e)
    go (t ∷ ts) e c = chain_end h.initial 2 t ts c
