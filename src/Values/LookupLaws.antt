-- ===== src/Values/LookupLaws.antt =====
-- `traverseLazyInStruct` of server/src/Tests.cpp finds the field that an address was taken of.
use utbot_cpp.Base.{
  ℕ, suc, ◌+◌, ◌-◌, ◌^◌, ◌<◌, List, [], ◌∷◌, ◌++◌, some, ◌≡◌, refl, ap, ◌∙◌, arith, Text, length,
  get_elem?, get_elem?-append, All, ok, ◌>>=◌, inl, inr, ◌⊎◌,
}
use utbot_cpp.Types.Kinds.{CType}
use utbot_cpp.Types.Handler.{
  TypesHandler, StructInfo, Field, primitive, object_pointer, struct_like, get_type_kind,
  get_struct_info,
}
use utbot_cpp.Values.Bytes.{read_at}
use utbot_cpp.Values.Reading.{lift_type}
use utbot_cpp.Values.Pointers.{get_field_access}
use utbot_cpp.Values.Lookup.{traverse_lazy_in_struct}
use utbot_cpp.Values.FieldSearch.{IsInOrder, find_field_index-append}

-- Fields, each of the type of the one before: where the last one begins, its type, and its text.
abbrev pub offset_of : List Field → ℕ
offset_of [] = 0
offset_of (f ∷ path) = f.offset + offset_of path

abbrev pub type_of : CType → List Field → CType
type_of t [] = t
type_of t (f ∷ path) = type_of f.type path

abbrev pub access_text : Text → List Field → Text
access_text name [] = name
access_text name (f ∷ path) = access_text (get_field_access name f) path

module _ (h : TypesHandler) where
  -- A path of fields down to a primitive or a pointer, through structs whose fields are in the order
  -- of their offsets. The fields behind one on the path begin behind the end of the path.
  abbrev pub IsFieldPath : CType → List Field → Type 0
  IsFieldPath t [] = (get_type_kind h t ≡ primitive) ⊎ (get_type_kind h t ≡ object_pointer)
  IsFieldPath t (f ∷ path) =
      (get_type_kind h t ≡ struct_like)
      × ((info : StructInfo) × (get_struct_info h t ≡ ok info)
          × IsInOrder info.fields
          × ((front : List Field) × (back : List Field) × (info.fields ≡ front ++ f ∷ back)
              × All (λ (g : Field). f.offset + offset_of path < g.offset) back))
      × IsFieldPath f.type path

  -- For a path of fields from a type down to a primitive or a pointer, the search for the offset at
  -- which the path ends gives the type and the text of its last field. The structs on the path have
  -- their fields in the order of the offsets, and the fields behind the one on the path begin behind
  -- that offset, which is below 2 ^ 31 bits. Fuel for one round more than the path has fields is
  -- enough.
  pub traverse_lazy_in_struct-offset_of :
      (t : CType) (path : List Field) (name : Text)
      → IsFieldPath t path
      → offset_of path < 2 ^ 31
      → traverse_lazy_in_struct h (suc (length path)) t (offset_of path) name
        ≡ ok (record { type = type_of t path; var_name = access_text name path })
  unfolding traverse_lazy_in_struct
  traverse_lazy_in_struct-offset_of t [] name (inl e) small = rw (e, traverse_lazy_in_struct) refl
  traverse_lazy_in_struct-offset_of t [] name (inr e) small = rw (e, traverse_lazy_in_struct) refl
  traverse_lazy_in_struct-offset_of t (f ∷ path) name
        (kind, (info, known, ordered, (front, back, parts, behind)), deeper) small =
      let index =
        find_field_index-append info (f.offset + offset_of path) front back f ordered small parts
          (omega arith) behind in
      let at : get_elem? info.fields (length front) ≡ some f =
        rw parts (get_elem?-append front f back) in
      let rest : offset_of (f ∷ path) - f.offset ≡ offset_of path = omega arith in
      rw (kind, known, index, at, traverse_lazy_in_struct, lift_type, read_at, ◌>>=◌)
        (ap
            (λ (o : ℕ).
              traverse_lazy_in_struct h (suc (length path)) f.type o (get_field_access name f))
            rest
          ∙ traverse_lazy_in_struct-offset_of f.type path (get_field_access name f) deeper
              (omega arith))
