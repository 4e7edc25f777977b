-- ===== src/Values/StructViews.antt =====
-- The views that `structView` of server/src/Tests.cpp gives.
use utbot_cpp.Base.{
  ℕ, suc, ◌+◌, Bool, true, false, not, ◌&&◌, ◌||◌, List, [], ◌∷◌, ◌≡◌, refl, sym, ap, ◌∙◌, arith,
  length, length-append, Result, ok, ◌>>=◌, bind_ok, ok-injective, Text, if◌then◌else◌, codes,
}
use utbot_cpp.Strings.Affixes.{is_empty}
use utbot_cpp.Types.Kinds.{PointerUsage}
use utbot_cpp.Types.Handler.{TypesHandler, StructInfo, Field, type_size}
use utbot_cpp.Values.Bytes.{ValueError}
use utbot_cpp.Values.Views.{
  View, struct_value, to_list, from_list, is_initialized, is_dirty_init, get_entry_value,
}
use utbot_cpp.Values.Arrays.{array_view}
use utbot_cpp.Types.Creation.{create_simple_type_from_name}
use utbot_cpp.Values.Reading.{lift_type}
use utbot_cpp.Values.Structs.{
  Progress, Pointer, KTestObject, InitReference, field_round, fields_loop, finish_field,
  finish_struct, needs_copy, start_progress, struct_view, field_view,
}

abbrev pub sub_views : View → List View
sub_views (struct_value info views value anonymous is_init dirty index) = to_list views
sub_views _ = []

to_list-from_list : (vs : List View) → to_list (from_list vs) ≡ vs
to_list-from_list [] = refl
to_list-from_list (v ∷ vs) = ap (λ ws. v ∷ ws) (to_list-from_list vs)

module _ (print_float : Text → List ℕ → Text) (h : TypesHandler) (bytes : List ℕ) where
  one_more :
      (view : Field → ℕ → ℕ → List InitReference → Result ValueError (View × List InitReference))
      (info : StructInfo) (offset : ℕ) (field : Field) (p q : Progress)
      → field_round print_float h bytes view info offset field p ≡ ok q
      → length q.sub_views ≡ length p.sub_views + 1
  unfolding field_round finish_field
  one_more view info offset field p q e =
      let (len, sized, tail) = bind_ok (lift_type (type_size h field.type)) _ q e in
      let (shown, seen, last) =
        bind_ok (view field (offset + field.offset) len p.references) _ q tail in
      omega (
        arith,
        ap (λ (r : Progress). length r.sub_views) (ok-injective _ q last),
        length-append p.sub_views (shown.0 ∷ []),
      )

  fields_loop-length :
      (view : Field → ℕ → ℕ → List InitReference → Result ValueError (View × List InitReference))
      (info : StructInfo) (offset : ℕ) (fields : List Field) (p q : Progress)
      → fields_loop print_float h bytes view info offset fields p ≡ ok q
      → length q.sub_views ≡ length p.sub_views + length fields
  fields_loop-length view info offset [] p q e =
      let done_at : Path (Result ValueError Progress) (ok p) (ok q) = unfold fields_loop in e in
      omega (arith, ap (λ (r : Progress). length r.sub_views) (ok-injective p q done_at))
  fields_loop-length view info offset (field ∷ fields) p q e =
      let (after, round, rest) =
        bind_ok (field_round print_float h bytes view info offset field p)
          (λ r. fields_loop print_float h bytes view info offset fields r) q
          (unfold fields_loop in e) in
      omega (
        arith,
        fields_loop-length view info offset fields after q rest,
        one_more view info offset field p after round,
      )

  finish_struct_lem :
      (info : StructInfo) (p : Progress) (anonymous : Bool) (text : Text)
      → let v = (finish_struct info p anonymous text).0 in
        (sub_views v ≡ p.sub_views)
        × ((is_initialized v || is_empty info.name || anonymous) ≡ true)
        × ((is_dirty_init v && not (is_initialized v)) ≡ false)
  unfolding finish_struct needs_copy
  finish_struct_lem info p anonymous text =
      (to_list-from_list p.sub_views, ground arith, ground arith)

  -- The view of a struct has a view for each field. It is initialised, unless its type has no name
  -- or it is an anonymous field, and only an initialised view is dirty.
  pub struct_view_lem :
      (lazy_pointers : List Pointer) (usage : PointerUsage) (fuel : ℕ) (objects : List KTestObject)
      (name : Text) (anonymous : Bool) (refs : List InitReference) (info : StructInfo) (offset : ℕ)
      (view : View) (added : List InitReference)
      → struct_view print_float h bytes lazy_pointers usage
          (suc fuel)
          objects
          name
          anonymous
          refs
          info
          offset
        ≡ ok (view, added)
      → (length (sub_views view) ≡ length info.fields)
        × ((is_initialized view || is_empty info.name || anonymous) ≡ true)
        × ((is_dirty_init view && not (is_initialized view)) ≡ false)
  unfolding struct_view
  struct_view_lem lazy_pointers usage fuel objects name anonymous refs info offset view added e =
      let field_views =
        field_view print_float h bytes lazy_pointers usage
          (struct_view print_float h bytes lazy_pointers usage fuel) objects info.name name in
      let (p, looped, tail) =
        bind_ok
          (fields_loop print_float h bytes field_views info offset info.fields
            (start_progress info offset refs))
          _ (view, added) e in
      let alone : StructInfo → ℕ → Result ValueError View = λ sub cur.
        struct_view print_float h bytes lazy_pointers usage fuel [] [] false [] sub cur >>= λ r.
        ok r.0 in
      let copy : Result ValueError Text =
        if needs_copy info p anonymous
        then (array_view print_float h bytes alone
              (create_simple_type_from_name (codes "utbot_byte") 0) info.size offset
            >>= λ v. ok (get_entry_value v))
        else ok [] in
      let (text, copied, last) =
        bind_ok copy (λ t. ok (finish_struct info p anonymous t)) (view, added) tail in
      let shape : (finish_struct info p anonymous text).0 ≡ view =
        ap (λ (r : View × List InitReference). r.0)
          (ok-injective (finish_struct info p anonymous text) (view, added) last) in
      let facts = finish_struct_lem info p anonymous text in
      let count =
        fields_loop-length field_views info offset info.fields (start_progress info offset refs) p
          looped in
      (
        ap (λ (v : View). length (sub_views v)) (sym shape)
            ∙ ap length facts.0
            ∙ omega (arith, count),
        ap (λ (v : View). is_initialized v || is_empty info.name || anonymous) (sym shape)
            ∙ facts.1,
        ap (λ (v : View). is_dirty_init v && not (is_initialized v)) (sym shape) ∙ facts.2,
      )
