-- ===== src/Values/Union.antt =====
-- Which field initialises a union: the loop of `structView` of server/src/Tests.cpp.
use utbot_cpp.Base.{
  ℕ, ◌+◌, ◌≤◌, Bool, true, not, ◌&&◌, ◌||◌, List, [], ◌∷◌, ◌++◌, none, some, ◌≡◌, refl, sym, ap,
  ◌∙◌, subst, arith, length, get_elem?, get_elem?-snoc, get_elem?-front, get_elem?-append,
  get_elem?-bound, length-append, ltb, Result, ok, err, Text, Bool-cases, Option-cases, bind_ok,
  ok-injective, inl, inr, ◌⊎◌, append_assoc, append-nil, if◌then◌else◌,
}
use utbot_cpp.Types.Handler.{TypesHandler, TypeError, StructInfo, Field, union, type_size}
use utbot_cpp.Values.Bytes.{ValueError}
use utbot_cpp.Values.Views.{View, is_dirty_init}
use utbot_cpp.Values.Reading.{lift_type}
use utbot_cpp.Values.Structs.{
  Progress, InitReference, dirty_between, dirty_field, finish_field, field_round, fields_loop,
  start_progress,
}
use mathlib.Core.Option.{some-injective, some-ne-none, none-ne-some}

-- The bytes of the union outside the field are zero, and so are those that its view skips.
abbrev pub is_clean : List ℕ → StructInfo → ℕ → Field → ℕ → View → Bool
is_clean bytes info offset field len view = not (
    ltb offset (offset + field.offset) && dirty_between bytes offset (offset + field.offset)
    || dirty_between bytes (offset + field.offset + len) (offset + info.size)
    || is_dirty_init view)

lifted : (r : Result TypeError ℕ) (n : ℕ) → lift_type r ≡ ok n → r ≡ ok n
lifted (ok m) n e = ap ok (ok-injective m n e)
lifted (err x) n e = cc

module _ (print_float : Text → List ℕ → Text) (h : TypesHandler) (bytes : List ℕ) where
  -- A field with its length and its view.
  pub record Shown (fields : List Field) (views : List View) (i : ℕ) (field : Field) (len : ℕ)
      (view : View) : Type 0 where
    pub at_field : get_elem? fields i ≡ some field
    pub at_view : get_elem? views i ≡ some view
    pub sized : type_size h field.type ≡ ok len

  -- What holds after the fields `done`: the field that is chosen is clean, and no clean one is
  -- larger; without one, no clean field has a bit.
  record IsBest (info : StructInfo) (offset : ℕ) (done : List Field) (p : Progress) : Type 0 where
    views : length p.sub_views ≡ length done
    index : p.field_index ≡ length done
    largest :
        (i : ℕ) (field : Field) (len : ℕ) (view : View)
        → Shown done p.sub_views i field len view
        → is_clean bytes info offset field len view ≡ true
        → len ≤ p.size_of_field_to_init_union
    none_chosen : p.field_index_to_init_union ≡ none → p.size_of_field_to_init_union ≡ 0
    chosen :
        (k : ℕ)
        → p.field_index_to_init_union ≡ some k
        → (field : Field) × (len : ℕ) × (view : View) × Shown done p.sub_views k field len view
          × (is_clean bytes info offset field len view ≡ true)
          × (len ≡ p.size_of_field_to_init_union)

  clean_field :
      (info : StructInfo) (offset : ℕ) (p : Progress) (field : Field) (len : ℕ) (view : View)
      → info.sub_type ≡ union
      → not (dirty_field bytes info offset p (offset + field.offset) len || is_dirty_init view)
        ≡ is_clean bytes info offset field len view
  unfolding dirty_field
  clean_field info offset p field len view u = rw u refl

  -- The fields before stay as they were shown.
  Shown-snoc :
      (done : List Field) (views : List View) (f : Field) (v : View) (i : ℕ) (field : Field)
      (len : ℕ) (view : View)
      → Shown done views i field len view
      → Shown (done ++ f ∷ []) (views ++ v ∷ []) i field len view
  Shown-snoc done views f v i field len view s = record {
    at_field = get_elem?-front done (f ∷ []) i field s.at_field;
    at_view = get_elem?-front views (v ∷ []) i view s.at_view;
    sized = s.sized;
  }

  -- A field that is shown is the new one or one of those before.
  Shown-cases :
      (done : List Field) (views : List View) (f : Field) (v : View) (i : ℕ) (field : Field)
      (len : ℕ) (view : View)
      → length views ≡ length done
      → Shown (done ++ f ∷ []) (views ++ v ∷ []) i field len view
      → Shown done views i field len view ⊎ ((i ≡ length done) × (field ≡ f) × (view ≡ v))
  Shown-cases done views f v i field len view l s =
      elim (get_elem?-snoc done f i field s.at_field) [
        | inl old ↦ elim (get_elem?-snoc views v i view s.at_view) [
          | inl seen ↦ inl (record { at_field = old; at_view = seen; sized = s.sized })
          | inr (place, new) ↦ absurd (omega (arith, get_elem?-bound done i field old))
        ]
        | inr (place, same) ↦ elim (get_elem?-snoc views v i view s.at_view) [
          | inl seen ↦ absurd (omega (arith, get_elem?-bound views i view seen))
          | inr (there, new) ↦ inr (place, same, new)
        ]
      ]

  -- What one round does to the choice.
  module _ (info : StructInfo) (offset : ℕ) (p : Progress) (field : Field) (len : ℕ) (view : View)
      (refs : List InitReference) (u : info.sub_type ≡ union) where
    abbrev after : Progress
    after =
        finish_field info p (offset + field.offset) len
          (dirty_field bytes info offset p (offset + field.offset) len || is_dirty_init view) view
          refs

    abbrev is_chosen : Bool
    is_chosen = is_clean bytes info offset field len view && ltb p.size_of_field_to_init_union len

    choice :
        (after.size_of_field_to_init_union
          ≡ (if is_chosen then len else p.size_of_field_to_init_union))
        × (after.field_index_to_init_union
            ≡ (if is_chosen then some p.field_index else p.field_index_to_init_union))
    unfolding finish_field
    choice = (
      rw (clean_field info offset p field len view u, u) (ground arith),
      rw (clean_field info offset p field len view u, u) (ground arith),
    )

    module _ (done : List Field) (sized : type_size h field.type ≡ ok len)
        (best : IsBest info offset done p) where
      abbrev Largest : ℕ → Type 0
      Largest n = n ≤ (if is_chosen then len else p.size_of_field_to_init_union)

      Largest-after :
          (i : ℕ) (f : Field) (n : ℕ) (v : View)
          → Shown (done ++ field ∷ []) (p.sub_views ++ view ∷ []) i f n v
          → is_clean bytes info offset f n v ≡ true
          → Largest n
      Largest-after i f n v s c =
          elim (Shown-cases done p.sub_views field view i f n v best.views s) [
            | inl old ↦ ground (arith, best.largest i f n v old c)
            | inr (place, same, new) ↦
                let sizes : ok len ≡ ok n =
                  sym sized ∙ ap (λ (g : Field). type_size h g.type) (sym same) ∙ s.sized in
                let length_same : len ≡ n = cc in
                let clean : is_clean bytes info offset field len view ≡ true =
                  ap (λ (g : Field). is_clean bytes info offset g len view) (sym same)
                  ∙ ap (λ (w : View). is_clean bytes info offset f len w) (sym new)
                  ∙ ap (λ (m : ℕ). is_clean bytes info offset f m v) length_same
                  ∙ c in
                ground arith
          ]

      Chosen : List Field → List View → ℕ → ℕ → Type 0
      Chosen fields views size k =
          (f : Field) × (n : ℕ) × (v : View) × Shown fields views k f n v
          × (is_clean bytes info offset f n v ≡ true)
          × (n ≡ size)

      Chosen-after :
          (k : ℕ)
          → (if is_chosen then some p.field_index else p.field_index_to_init_union) ≡ some k
          → Chosen
              (done ++ field ∷ [])
              (p.sub_views ++ view ∷ [])
              (if is_chosen then len else p.size_of_field_to_init_union)
              k
      unfolding Chosen
      Chosen-after k e = elim (Bool-cases is_chosen) [
        | inl is ↦
            let place : k ≡ length done =
              sym (some-injective p.field_index k (rw is at e)) ∙ best.index in
            rw (is, place)
              (
                field,
                len,
                view,
                record {
                  at_field = get_elem?-append done field [];
                  at_view = rw (sym best.views) (get_elem?-append p.sub_views view []);
                  sized = sized;
                },
                ground arith,
                refl,
              )
        | inr isnt ↦
            let (f, n, v, s, c, l) = best.chosen k (rw isnt at e) in
            rw isnt (f, n, v, Shown-snoc done p.sub_views field view k f n v s, c, l)
      ]

      no_bits :
          (if is_chosen then some p.field_index else p.field_index_to_init_union) ≡ none
          → (if is_chosen then len else p.size_of_field_to_init_union) ≡ 0
      no_bits e = elim (Bool-cases is_chosen) [
        | inl is ↦ absurd (some-ne-none p.field_index (rw is at e))
        | inr isnt ↦ rw isnt (best.none_chosen (rw isnt at e))
      ]

      finish_field-IsBest : IsBest info offset (done ++ field ∷ []) after
      unfolding finish_field Chosen
      finish_field-IsBest = record {
        views = omega (
          arith,
          length-append p.sub_views (view ∷ []),
          length-append done (field ∷ []),
          best.views,
        );
        index = omega (arith, length-append done (field ∷ []), best.index);
        largest = λ i f n v s c. rw choice.0 (Largest-after i f n v s c);
        none_chosen = λ e. rw choice.0 (no_bits (rw choice.1 at e));
        chosen = λ k e. rw choice.0 (Chosen-after k (rw choice.1 at e));
      }

  -- So does the round of a field.
  field_round-IsBest :
      (view : Field → ℕ → ℕ → List InitReference → Result ValueError (View × List InitReference))
      (info : StructInfo) (offset : ℕ) (done : List Field) (p q : Progress) (field : Field)
      → info.sub_type ≡ union
      → IsBest info offset done p
      → field_round print_float h bytes view info offset field p ≡ ok q
      → IsBest info offset (done ++ field ∷ []) q
  unfolding field_round
  field_round-IsBest view info offset done p q field u best e =
      let (len, sized, tail) = bind_ok (lift_type (type_size h field.type)) _ q e in
      let (shown, seen, last) =
        bind_ok (view field (offset + field.offset) len p.references) _ q tail in
      subst (IsBest info offset (done ++ field ∷ [])) (ok-injective _ q last) (
        finish_field-IsBest info offset p field len shown.0 shown.1 u done
          (lifted (type_size h field.type) len sized) best)

  -- The loop keeps it, whatever views the fields have.
  fields_loop-IsBest :
      (view : Field → ℕ → ℕ → List InitReference → Result ValueError (View × List InitReference))
      (info : StructInfo) (offset : ℕ) (done fields : List Field) (p q : Progress)
      → info.sub_type ≡ union
      → IsBest info offset done p
      → fields_loop print_float h bytes view info offset fields p ≡ ok q
      → IsBest info offset (done ++ fields) q
  fields_loop-IsBest view info offset done [] p q u best e =
      let done_at : Path (Result ValueError Progress) (ok p) (ok q) = unfold fields_loop in e in
      let same : p ≡ q = ok-injective p q done_at in
      subst (IsBest info offset (done ++ [])) same
        (subst (λ (fs : List Field). IsBest info offset fs p) (sym (append-nil done)) best)
  fields_loop-IsBest view info offset done (field ∷ fields) p q u best e =
      let (after, round, rest) =
        bind_ok (field_round print_float h bytes view info offset field p)
          (λ r. fields_loop print_float h bytes view info offset fields r) q
          (unfold fields_loop in e) in
      subst (λ (fs : List Field). IsBest info offset fs q) (append_assoc done (field ∷ []) fields)
        (fields_loop-IsBest view info offset (done ++ field ∷ []) fields after q u
          (field_round-IsBest view info offset done p after field u best round) rest)

  -- The loop over the fields of a union, if it returns, chooses no field only if every clean one, that
  -- is one outside of which no byte of the union is set and whose view skips none that is, has no
  -- bit; otherwise the field that it chooses to initialise the union is clean, and no clean one is
  -- larger.
  pub fields_loop-union :
      (view : Field → ℕ → ℕ → List InitReference → Result ValueError (View × List InitReference))
      (info : StructInfo) (offset : ℕ) (refs : List InitReference) (q : Progress)
      → info.sub_type ≡ union
      → fields_loop print_float h bytes view info offset info.fields
          (start_progress info offset refs)
        ≡ ok q
      → ((q.field_index_to_init_union ≡ none)
          × ((i : ℕ) (field : Field) (len : ℕ) (shown : View)
              → Shown info.fields q.sub_views i field len shown
              → is_clean bytes info offset field len shown ≡ true
              → len ≡ 0))
        ⊎ ((k : ℕ) × (chosen : Field) × (size : ℕ) × (seen : View) × (q.field_index_to_init_union
              ≡ some k)
            × Shown info.fields q.sub_views k chosen size seen
            × (is_clean bytes info offset chosen size seen ≡ true)
            × ((i : ℕ) (field : Field) (len : ℕ) (shown : View)
                → Shown info.fields q.sub_views i field len shown
                → is_clean bytes info offset field len shown ≡ true
                → len ≤ size))
  fields_loop-union view info offset refs q u e =
      let start : IsBest info offset [] (start_progress info offset refs) = record {
        views = refl;
        index = refl;
        largest =
            λ j g n w s t. absurd (omega (arith, get_elem?-bound {A = Field} [] j g s.at_field));
        none_chosen = λ _. refl;
        chosen = λ j s. absurd (none-ne-some j s);
      } in
      let best =
        fields_loop-IsBest view info offset [] info.fields (start_progress info offset refs) q u
          start e in
      elim (Option-cases q.field_index_to_init_union) [
        | inl no_choice ↦ inl (
          no_choice,
          λ i field len shown s c.
              omega (arith, best.largest i field len shown s c, best.none_chosen no_choice),
        )
        | inr (k, index) ↦
            let (g, n, w, s, clean, longest) = best.chosen k index in
            inr (
              k,
              g,
              n,
              w,
              index,
              s,
              clean,
              λ i field len shown t c. omega (arith, best.largest i field len shown t c, longest),
            )
      ]
