-- ===== src/Examples/Merging.antt =====
-- Three session speakers, of which one is merged into another.
use speaker_attributed_stt.Session.Merging.Constraints.{merge_constraint_one_way}
use speaker_attributed_stt.Session.Creating.{new_speaker}
use speaker_attributed_stt.Session.Merging.Leads.{merge_leads, merge_keeps, merge-IsForest}
use speaker_attributed_stt.Errors.{ok}
use speaker_attributed_stt.Embedding.{SpeakerPrototype}
use speaker_attributed_stt.Session.Merging.Forest.{merged_count, Resolves, get_total, IsForest}
use speaker_attributed_stt.Session.{SessionSpeaker, get, LabelChange, Session, SessionConfig}
use speaker_attributed_stt.Prelude.{
  any, subst, eq_iff, str_eq, sym, Bool-cases, ◌∷◌, true, false, ◌∙◌, [], ℕ, ap, String, ◌≡◌, refl,
  inl, inr, ◌⊎◌, some, none,
}
use speaker_attributed_stt.Prelude.Dict.{put_other, put_same, put, empty}
use speaker_attributed_stt.Identity.{
  merged, transition, moved, is_state, Machine, IdentityState, session_anonymous,
}
use speaker_attributed_stt.Session.Merging.{
  merged_target, can_merge, merge, merge_change, after_merge,
}

abbrev pub room_for_five : SessionConfig ℕ
room_for_five = record {
  max_session_speakers = 5;
  minimum_speech_ms = 1000;
  update_from_separated_sources = true;
  ambiguous_margin = some 2;
  is_calibrated = false;
}

abbrev pub anonymous_machine : Machine
anonymous_machine = record { state = session_anonymous; history = [] }

-- Ann was heard at the same time as Cat.
abbrev pub ann : SessionSpeaker ℕ ℕ
ann = record (new_speaker "ann" anonymous_machine "Speaker 1" none) { cannot_link = "cat" ∷ [] }

abbrev voice : String → ℕ → SpeakerPrototype ℕ ℕ
voice key centroid = record {
  speaker_key = key;
  centroid = centroid;
  weight_sum = 1;
  model_version = "m";
  version = 1;
  contributing_segments = [];
}

abbrev pub bob : SessionSpeaker ℕ ℕ
bob = record (new_speaker "bob" anonymous_machine "Speaker 2" none) {
  prototype = some (voice "bob" 3);
}

-- Cat came up in an overlap.
abbrev pub cat : SessionSpeaker ℕ ℕ
cat =
    record (new_speaker "cat" (record { state = IdentityState.provisional; history = [] })
      "Temporary Speaker 1" none) { cannot_link = "ann" ∷ []; prototype = some (voice "cat" 2) }

abbrev pub three : Session ℕ ℕ
three = record {
  config = room_for_five;
  embedding_model_version = "m";
  speakers = put (put (put empty "ann" ann) "bob" bob) "cat" cat;
  order = "ann" ∷ "bob" ∷ "cat" ∷ [];
  pending_label_changes = [];
  temporary_counter = 0;
  label_counter = 3;
  unattributed_id = none;
}

abbrev pub after_three : Session ℕ ℕ
after_three = after_merge three ann bob (moved anonymous_machine merged "same voice") "same voice"

abbrev ann_to_bob : LabelChange
ann_to_bob = merge_change ann bob "same voice"

get-ann : get three "ann" ≡ ok ann
unfolding get put
get-ann = refl

pub get-bob : get three "bob" ≡ ok bob
unfolding get put
get-bob = refl

get-cat : get three "cat" ≡ ok cat
unfolding get put
get-cat = refl

merge_runs : merge "ann" "bob" "same voice" three ≡ (ok ann_to_bob, after_three)
unfolding merge get put is_state transition
merge_runs = refl

-- Who is in the session.
present :
    (id : String) (p : SessionSpeaker ℕ ℕ)
    → three.speakers id ≡ some p
    → ((id ≡ "ann") × (p ≡ ann)) ⊎ (((id ≡ "bob") × (p ≡ bob)) ⊎ ((id ≡ "cat") × (p ≡ cat)))
present id p e = elim (Bool-cases (str_eq "cat" id)) [
  | inl c ↦ inr (
      inr (
        sym ((eq_iff "cat" id).0 c),
        cc (put_same (put (put empty "ann" ann) "bob" bob) "cat" cat id c),
      ))
  | inr c ↦ elim (Bool-cases (str_eq "bob" id)) [
    | inl b ↦ inr (
        inl (
          sym ((eq_iff "bob" id).0 b),
          cc (
            put_other (put (put empty "ann" ann) "bob" bob) "cat" cat id c,
            put_same (put empty "ann" ann) "bob" bob id b,
          ),
        ))
    | inr b ↦ elim (Bool-cases (str_eq "ann" id)) [
      | inl a ↦ inl (
        sym ((eq_iff "ann" id).0 a),
        cc (
          put_other (put (put empty "ann" ann) "bob" bob) "cat" cat id c,
          put_other (put empty "ann" ann) "bob" bob id b,
          put_same {V = SessionSpeaker ℕ ℕ} empty "ann" ann id a,
        ),
      )
      | inr a ↦
          let gone : three.speakers id ≡ none =
            put_other (put (put empty "ann" ann) "bob" bob) "cat" cat id c
            ∙ put_other (put empty "ann" ann) "bob" bob id b
            ∙ put_other empty "ann" ann id a in
          absurd cc
    ]
  ]
]

pub three-IsForest : IsForest three
three-IsForest = record {
  own = λ id p e. elim (present id p e) [
    | inl (same, at) ↦ ap (λ q. q.session_speaker_id) at ∙ sym same
    | inr (inl (same, at)) ↦ ap (λ q. q.session_speaker_id) at ∙ sym same
    | inr (inr (same, at)) ↦ ap (λ q. q.session_speaker_id) at ∙ sym same
  ];
  listed = λ id p e. elim (present id p e) [
    | inl (same, at) ↦ subst (λ i. any (str_eq i) three.order ≡ true) (sym same) refl
    | inr (inl (same, at)) ↦ subst (λ i. any (str_eq i) three.order ≡ true) (sym same) refl
    | inr (inr (same, at)) ↦ subst (λ i. any (str_eq i) three.order ≡ true) (sym same) refl
  ];
  ends = λ id p e. (
    p,
    Resolves.done (merged_count three.speakers three.order) id e (elim (present id p e) [
      | inl (same, at) ↦ ap (λ q. q.merged_into) at
      | inr (inl (same, at)) ↦ ap (λ q. q.merged_into) at
      | inr (inr (same, at)) ↦ ap (λ q. q.merged_into) at
    ]),
  );
}

get_total_example :
    (r : SessionSpeaker ℕ ℕ) × (get three "ann" ≡ ok r)
    × (r.merged_into ≡ none)
    × (three.speakers r.session_speaker_id ≡ some r)
unfolding put
get_total_example = get_total three "ann" ann three-IsForest refl

merge-IsForest_example : IsForest after_three
merge-IsForest_example =
    merge-IsForest three after_three "ann" "bob" "same voice" ann_to_bob ann bob three-IsForest
      get-ann get-bob merge_runs

merge_leads_example : get after_three "ann" ≡ ok (merged_target ann bob)
merge_leads_example =
    merge_leads three after_three "ann" "bob" "same voice" ann_to_bob ann bob "ann" three-IsForest
      get-ann get-bob merge_runs (inl get-ann)

merge_keeps_example : get after_three "cat" ≡ ok cat
merge_keeps_example =
    merge_keeps three after_three "ann" "bob" "same voice" ann_to_bob ann bob "cat" cat
      three-IsForest get-ann get-bob merge_runs get-cat refl refl

merge_constraint_one_way_example :
    (can_merge "bob" "cat" after_three ≡ (ok false, after_three))
    × (can_merge "cat" "bob" after_three ≡ (ok true, after_three))
merge_constraint_one_way_example =
    merge_constraint_one_way three after_three "ann" "bob" "same voice" ann_to_bob ann bob cat
      three-IsForest get-ann get-bob get-cat merge_runs refl refl refl refl
