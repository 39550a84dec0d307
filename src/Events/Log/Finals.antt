-- ===== src/Events/Log/Finals.antt =====
-- Final events: one for each dedup key, however often it is appended.
use Prim.Native.String.{String}
use speaker_attributed_stt.Prelude.{
  ℕ, zero, suc, ◌+◌, ◌-◌, ◌≤◌, ◌≡◌, refl, ap, subst, sym, ◌∙◌, Bool, true, false, ◌&&◌, inl, inr,
  Option, none, some, List, [], ◌∷◌, ◌++◌, arith, str_eq, eq_iff, length, drop, filter,
  filter-append, length-append, Bool-cases,
}
use speaker_attributed_stt.Prelude.Dict.{Dict, put, put_lem, put_self}
use speaker_attributed_stt.Errors.{Result, ok, err}
use speaker_attributed_stt.Events.Log.{
  ServerEvent, SessionEventLog, Append, make_log, existing_final, new_event, remember_final,
  with_event, append, retain,
}
use speaker_attributed_stt.Events.Log.Sequence.{append-eq-ok}

abbrev pub key_is : String → Option String → Bool
key_is k none = false
key_is k (some j) = str_eq j k

module _ {P : Type 0} where
  -- The final events with the dedup key.
  abbrev pub finals_for : String → List (ServerEvent P) → List (ServerEvent P)
  finals_for k = filter (λ e. e.is_final && key_is k e.dedup_key)

  abbrev held_value : Option (ServerEvent P) → ℕ
  held_value none = 0
  held_value (some e) = 1

  abbrev held : Dict (ServerEvent P) → String → ℕ
  held d k = held_value (d k)

  -- Only a final event that is remembered is in the log, and once.
  abbrev pub HasOneFinal : SessionEventLog P → Type 0
  HasOneFinal log = (k : String) → length (finals_for k log.events) ≤ held log.final_by_dedup_key k

  finals_for-drop :
      (k : String) (n : ℕ) (es : List (ServerEvent P))
      → length (finals_for k (drop n es)) ≤ length (finals_for k es)
  finals_for-drop k zero es = omega arith
  finals_for-drop k (suc n) [] = omega arith
  finals_for-drop k (suc n) (e ∷ es) = ground (arith, finals_for-drop k n es)

  finals_for-retain :
      (k : String) (retention : ℕ) (es : List (ServerEvent P))
      → length (finals_for k (retain retention es)) ≤ length (finals_for k es)
  unfolding retain
  finals_for-retain k retention es = ground (arith, finals_for-drop k (length es - retention) es)

  held-none : (d : Dict (ServerEvent P)) (k : String) → d k ≡ none → held d k ≡ 0
  held-none d k h = ap held_value h

  held-some :
      (d : Dict (ServerEvent P)) (k : String) (e : ServerEvent P) → d k ≡ some e → held d k ≡ 1
  held-some d k e h = ap held_value h

  finals_for-one : (k : String) (e : ServerEvent P) → length (finals_for k (e ∷ [])) ≤ 1
  finals_for-one k e = ground arith

  finals_for-other :
      (k j : String) (e : ServerEvent P)
      → e.dedup_key ≡ some j
      → str_eq j k ≡ false
      → length (finals_for k (e ∷ [])) ≡ 0
  finals_for-other k j e q other = ground arith

  -- What one more event adds is covered by what is remembered of it.
  remember_final-held :
      (k : String) (d : Dict (ServerEvent P)) (final : Bool) (key : Option String)
      (e : ServerEvent P) (n : ℕ)
      → e.is_final ≡ final
      → e.dedup_key ≡ key
      → n ≤ held d k
      → (final ≡ true → key ≡ some k → d k ≡ none)
      → n + length (finals_for k (e ∷ [])) ≤ held (remember_final d final key e) k
  unfolding remember_final
  remember_final-held k d true (some j) e n p q h unseen = elim (Bool-cases (str_eq j k)) [
    | inl same ↦
        let here : put d j e k ≡ some e = put_lem d j e k ∙ rw same refl in
        omega (
          arith,
          held-none d k (unseen refl (ap some ((eq_iff j k).0 same))),
          held-some (put d j e) k e here,
          finals_for-one k e,
        )
    | inr other ↦
        let there : put d j e k ≡ d k = put_lem d j e k ∙ rw other refl in
        omega (arith, ap held_value there, finals_for-other k j e q other)
  ]
  remember_final-held k d true none e n p q h unseen = ground arith
  remember_final-held k d false key e n p q h unseen = ground arith

  existing_final-key :
      (log : SessionEventLog P) (final : Bool) (key : Option String) (k : String)
      → final ≡ true
      → key ≡ some k
      → existing_final log final key ≡ log.final_by_dedup_key k
  unfolding existing_final
  existing_final-key log final key k p q = ground arith

  with_event-HasOneFinal :
      (log : SessionEventLog P) (e : ServerEvent P)
      → existing_final log e.is_final e.dedup_key ≡ none
      → HasOneFinal log
      → HasOneFinal (with_event log e)
  unfolding with_event
  with_event-HasOneFinal log e unseen h k =
      let added =
        remember_final-held k log.final_by_dedup_key e.is_final e.dedup_key e
          (length (finals_for k log.events)) refl refl (h k)
          (λ p q. sym (existing_final-key log e.is_final e.dedup_key k p q) ∙ unseen) in
      omega (
        arith,
        finals_for-retain k log.retention (log.events ++ e ∷ []),
        ap length (filter-append (λ f. f.is_final && key_is k f.dedup_key) log.events (e ∷ [])),
        length-append (finals_for k log.events) (finals_for k (e ∷ [])),
        added,
      )

  pub append-HasOneFinal :
      (log : SessionEventLog P) (a : Append P) (now_ms : ℕ) (fresh_id : String) {e : ServerEvent P}
      {log' : SessionEventLog P}
      → append log a now_ms fresh_id ≡ ok (e, log')
      → HasOneFinal log
      → HasOneFinal log'
  append-HasOneFinal log a now_ms fresh_id {e} h one = elim (append-eq-ok log a now_ms fresh_id h) [
    | inl (_, same) ↦ subst HasOneFinal (sym same) one
    | inr (unseen, _, _, made, after) ↦
        subst HasOneFinal (sym after)
          (with_event-HasOneFinal log e (rw made (unfold new_event in unseen)) one)
  ]

  -- A client that goes on after an error: each call with the clock's answer and the new id.
  abbrev pub after :
      SessionEventLog P → Result (ServerEvent P × SessionEventLog P) → SessionEventLog P
  after log (ok (e, log')) = log'
  after log (err x) = log

  pub append_all : SessionEventLog P → List (Append P × ℕ × String) → SessionEventLog P
  append_all log [] = log
  append_all log ((a, now_ms, fresh_id) ∷ calls) =
      append_all (after log (append log a now_ms fresh_id)) calls

  after-HasOneFinal :
      (log : SessionEventLog P) (a : Append P) (now_ms : ℕ) (fresh_id : String)
      (r : Result (ServerEvent P × SessionEventLog P))
      → append log a now_ms fresh_id ≡ r
      → HasOneFinal log
      → HasOneFinal (after log r)
  after-HasOneFinal log a now_ms fresh_id (ok (e, log')) h one =
      append-HasOneFinal log a now_ms fresh_id h one
  after-HasOneFinal log a now_ms fresh_id (err x) h one = one

  append_all-HasOneFinal :
      (log : SessionEventLog P) (calls : List (Append P × ℕ × String))
      → HasOneFinal log
      → HasOneFinal (append_all log calls)
  unfolding append_all
  append_all-HasOneFinal log [] one = one
  append_all-HasOneFinal log ((a, now_ms, fresh_id) ∷ calls) one =
      append_all-HasOneFinal (after log (append log a now_ms fresh_id)) calls
        (after-HasOneFinal log a now_ms fresh_id _ refl one)

  pub held-le : (d : Dict (ServerEvent P)) (k : String) → held d k ≤ 1
  held-le d k = ground arith

  -- Whatever is appended to a new log, in whatever order and however often, the log holds at most
  -- one final event for each dedup key.
  pub at_most_one_final :
      (session_id : String) (retention : ℕ) (calls : List (Append P × ℕ × String)) (k : String)
      → length (finals_for k (append_all (make_log session_id retention) calls).events) ≤ 1
  at_most_one_final session_id retention calls k = omega (
    arith,
    append_all-HasOneFinal (make_log session_id retention) calls (λ j. omega arith) k,
    held-le (append_all (make_log session_id retention) calls).final_by_dedup_key k,
  )

  append-existing :
      (log : SessionEventLog P) (b : Append P) (later_ms : ℕ) (other_id : String)
      (e : ServerEvent P)
      → existing_final log b.is_final b.dedup_key ≡ some e
      → append log b later_ms other_id ≡ ok (e, log)
  unfolding append
  append-existing log b later_ms other_id e h = rw (h, append)

  remember_final_self :
      (d : Dict (ServerEvent P)) (final : Bool) (key : Option String) (e : ServerEvent P)
      (k : String)
      → final ≡ true
      → key ≡ some k
      → remember_final d final key e k ≡ some e
  remember_final_self d final key e k f q = rw (f, q) (unfold remember_final in put_self d k e)

  remembered :
      (log log' : SessionEventLog P) (a : Append P) (now_ms : ℕ) (fresh_id k : String)
      (e : ServerEvent P)
      → append log a now_ms fresh_id ≡ ok (e, log')
      → a.is_final ≡ true
      → a.dedup_key ≡ some k
      → log'.final_by_dedup_key k ≡ some e
  remembered log log' a now_ms fresh_id k e h f key = elim (append-eq-ok log a now_ms fresh_id h) [
    | inl (found, same) ↦
        rw same (sym (existing_final-key log a.is_final a.dedup_key k f key) ∙ found)
    | inr (_, _, _, made, grown) ↦
        let fe : e.is_final ≡ true = rw made (unfold new_event in f) in
        let ke : e.dedup_key ≡ some k = rw made (unfold new_event in key) in
        rw grown (
          unfold with_event in
          remember_final_self log.final_by_dedup_key e.is_final e.dedup_key e k fe ke)
  ]

  -- After a final event with a dedup key has been appended, a call for another final event with that
  -- key returns the event of the first call, whatever else it carries, and changes nothing.
  pub append-retry :
      (log log' : SessionEventLog P) (a b : Append P) (now_ms later_ms : ℕ)
      (fresh_id other_id k : String) (e : ServerEvent P)
      → append log a now_ms fresh_id ≡ ok (e, log')
      → a.is_final ≡ true
      → a.dedup_key ≡ some k
      → b.is_final ≡ true
      → b.dedup_key ≡ some k
      → append log' b later_ms other_id ≡ ok (e, log')
  append-retry log log' a b now_ms later_ms fresh_id other_id k e h fa ka fb kb =
      append-existing log' b later_ms other_id e (
        existing_final-key log' b.is_final b.dedup_key k fb kb
        ∙ remembered log log' a now_ms fresh_id k e h fa ka)
