-- ===== src/Filter/Accepts.antt =====
-- What `FeaturesFilter::filter` of server/src/FeaturesFilter.cpp says of the methods that it keeps.
use utbot_cpp.Base.{
  ◌+◌, Bool, true, false, not, ◌||◌, List, [], ◌∷◌, ◌≡◌, refl, ap, subst, arith, Option, none, some,
  Text, All, length, length-append, any, ◌++◌, ok, inl, inr, Result-cases, Option-cases,
}
use utbot_cpp.Types.Kinds.{as_public}
use utbot_cpp.Types.Handler.{StructInfo, get_struct_info}
use utbot_cpp.Types.Support.{return, CheckState, parameter}
use utbot_cpp.Filter.Methods.{
  update_if_not_complete_type, MethodParam, MethodDescription, Queries, return_verdict,
  params_verdict, class_verdict, modifiers_verdict, private_params_verdict, last_verdict, verdict,
  filter_methods, has_private_array_type,
}
use utbot_cpp.Filter.Globals.{filter_global_parameters, filter_global_parameters_lem}
use utbot_cpp.Filter.Files.{Tests, is_nil, filter_tests, filter_files, filter}

module _ (q : Queries) (gen : Bool) where
  -- A method that tests can be generated for.
  pub record Accepts (m : MethodDescription) : Type 0 where
    pub static_wanted : m.is_static ≡ true → gen ≡ true
    pub inline_linked : m.is_inline ≡ true → (m.is_static || m.is_extern) ≡ true
    pub is_public_method : m.access_specifier ≡ as_public
    -- The answers of the caches at the time of the question.
    pub return_supported :
        (st : CheckState) × ((q.support m.return_type return st).0.is_supported ≡ true)
    pub params_supported :
        All
          (λ p. (st : CheckState) × ((q.support p.type parameter st).0.is_supported ≡ true))
          m.params
    pub return_complete : m.has_incomplete_return_type ≡ false
    pub params_complete : All (λ p. p.has_incomplete_type ≡ false) m.params
    pub return_open : has_private_array_type q m.return_type ≡ false
    pub params_open : All (λ p. has_private_array_type q p.type ≡ false) m.params
    pub constructible :
        (c : MethodParam)
        → m.class_obj ≡ some c
        → (s : StructInfo) × (get_struct_info q.handler c.type ≡ ok s)
          × (s.has_default_public_constructor ≡ true)
          × (q.private_array c.type ≡ false)

  return_verdict-none :
      (m : MethodDescription) (st : CheckState)
      → (return_verdict q m st).0 ≡ none
      → m.has_incomplete_return_type ≡ false
  unfolding return_verdict
  return_verdict-none m st e = ground arith

  params_verdict-none :
      (name : Text) (ps : List MethodParam) (st : CheckState)
      → (params_verdict q name ps st).0 ≡ none
      → All (λ p. p.has_incomplete_type ≡ false) ps
  unfolding params_verdict
  params_verdict-none name [] st e = tt
  params_verdict-none name (p ∷ ps) st e =
      ground (arith, params_verdict-none name ps (q.support p.type parameter st).1)

  return_verdict-supported :
      (m : MethodDescription) (st : CheckState)
      → (return_verdict q m st).0 ≡ none
      → (q.support m.return_type return st).0.is_supported ≡ true
  unfolding return_verdict update_if_not_complete_type
  return_verdict-supported m st e = ground arith

  params_verdict-supported :
      (name : Text) (ps : List MethodParam) (st : CheckState)
      → (params_verdict q name ps st).0 ≡ none
      → All (λ p. (s : CheckState) × ((q.support p.type parameter s).0.is_supported ≡ true)) ps
  unfolding params_verdict update_if_not_complete_type
  params_verdict-supported name [] st e = tt
  params_verdict-supported name (p ∷ ps) st e = (
    (st, ground arith),
    params_verdict-supported name ps (q.support p.type parameter st).1 (ground arith),
  )

  private_params_none :
      (name : Text) (ps : List MethodParam)
      → private_params_verdict q name ps ≡ none
      → All (λ p. has_private_array_type q p.type ≡ false) ps
  unfolding private_params_verdict
  private_params_none name [] e = tt
  private_params_none name (p ∷ ps) e = ground (arith, private_params_none name ps)

  class_verdict-none :
      (name : Text) (o : Option MethodParam) (c : MethodParam)
      → class_verdict q name o ≡ ok none
      → o ≡ some c
      → (s : StructInfo) × (get_struct_info q.handler c.type ≡ ok s)
        × (s.has_default_public_constructor ≡ true)
        × (q.private_array c.type ≡ false)
  unfolding class_verdict
  class_verdict-none name none c e f = cc
  class_verdict-none name (some d) c e f = elim (Result-cases (get_struct_info q.handler d.type)) [
    | inl (s, known) ↦
        let same : d ≡ c = ground arith in
        subst
          (λ (k : MethodParam).
            (s : StructInfo) × (get_struct_info q.handler k.type ≡ ok s)
            × (s.has_default_public_constructor ≡ true)
            × (q.private_array k.type ≡ false))
          same (s, known, ground arith, ground arith)
    | inr (bad, unknown) ↦ absurd (ground arith)
  ]

  -- What each part of the predicate said, if it let the method pass.
  verdict-none :
      (m : MethodDescription) (st st' : CheckState)
      → verdict q gen m st ≡ ok (none, st')
      → ((return_verdict q m st).0 ≡ none)
        × ((params_verdict q m.name m.params (return_verdict q m st).1).0 ≡ none)
        × (modifiers_verdict q gen m ≡ none)
        × (class_verdict q m.name m.class_obj ≡ ok none)
        × (private_params_verdict q m.name m.params ≡ none)
        × (last_verdict q m ≡ none)
  unfolding verdict
  verdict-none m st st' e = ground arith

  verdict-Accepts :
      (m : MethodDescription) (st st' : CheckState)
      → verdict q gen m st ≡ ok (none, st')
      → Accepts m
  verdict-Accepts m st st' e =
      let (r, ps, ms, c, pp, l) = verdict-none m st st' e in
      record {
        static_wanted = unfold modifiers_verdict in ground arith;
        inline_linked = unfold modifiers_verdict in ground arith;
        is_public_method = unfold last_verdict in ground arith;
        return_supported = (st, return_verdict-supported m st r);
        params_supported = params_verdict-supported m.name m.params _ ps;
        return_complete = return_verdict-none m st r;
        params_complete = params_verdict-none m.name m.params _ ps;
        return_open = unfold last_verdict in ground arith;
        params_open = private_params_none m.name m.params pp;
        constructible = λ k f. class_verdict-none m.name m.class_obj k c f;
      }

  -- When the filter of the methods of one file returns, every method that is kept is accepted,
  -- whatever the queries answer, and each erased method leaves exactly one comment.
  pub filter_methods_lem :
      (ms : List MethodDescription) (st : CheckState) (kept : List MethodDescription)
      (comments : List Text) (st' : CheckState)
      → filter_methods q gen ms st ≡ ok (kept, comments, st')
      → All Accepts kept × (length kept + length comments ≡ length ms)
  unfolding filter_methods
  filter_methods_lem [] st kept comments st' e =
      let k : [] ≡ kept = ground arith in
      let c : [] ≡ comments = ground arith in
      (subst (All Accepts) k tt, omega (arith, ap length k, ap length c))
  filter_methods_lem (m ∷ ms) st kept comments st' e = elim (Result-cases (verdict q gen m st)) [
    | inr (bad, thrown) ↦ absurd (ground arith)
    | inl ((v, st₁), judged) ↦ elim (Result-cases (filter_methods q gen ms st₁)) [
      | inr (bad, thrown) ↦ absurd (ground arith)
      | inl ((kept₀, comments₀, st₂), done) ↦
          let ih = filter_methods_lem ms st₁ kept₀ comments₀ st₂ done in
          elim (Option-cases v) [
            | inl passed ↦
                let k : m ∷ kept₀ ≡ kept = ground arith in
                let c : comments₀ ≡ comments = ground arith in
                (
                  subst (All Accepts) k (verdict-Accepts m st st₁ (ground arith), ih.0),
                  omega (arith, ap length k, ap length c, ih.1),
                )
            | inr (t, erased) ↦
                let k : kept₀ ≡ kept = ground arith in
                let c : t ∷ comments₀ ≡ comments = ground arith in
                (subst (All Accepts) k ih.0, omega (arith, ap length k, ap length c, ih.1))
          ]
    ]
  ]

  -- A file after the filter: it is the same file, every method that is left is accepted, and it
  -- has as many comments more as methods fewer.
  pub record IsFiltered (t t' : Tests) : Type 0 where
    pub same_file : t'.source_file_path ≡ t.source_file_path
    pub accepted : All Accepts t'.methods
    pub counted :
        length t'.methods + length t'.comment_blocks ≡ length t.methods + length t.comment_blocks

  filter_tests-IsFiltered :
      (t t' : Tests) (st st' : CheckState)
      → filter_tests q gen t st ≡ ok (t', st')
      → IsFiltered t t'
  unfolding filter_tests
  filter_tests-IsFiltered t t' st st' e =
      let (methods, st₁) = filter_global_parameters q t.methods st in
      elim (Result-cases (filter_methods q gen methods st₁)) [
        | inr (bad, thrown) ↦ absurd (ground arith)
        | inl ((kept, comments, st₂), done) ↦
            let same : record t { methods = kept; comment_blocks = t.comment_blocks ++ comments }
                ≡ t' =
              ground arith in
            let (accepted, counted) = filter_methods_lem methods st₁ kept comments st₂ done in
            subst (IsFiltered t) same (record {
              same_file = refl;
              accepted = accepted;
              counted = omega (
                arith,
                length-append t.comment_blocks comments,
                counted,
                (filter_global_parameters_lem q t.methods st).1,
              );
            })
      ]

  -- File by file.
  abbrev pub AreFiltered : List Tests → List Tests → Type 0
  AreFiltered [] [] = Unit
  AreFiltered (t ∷ ts) (t' ∷ ts') = IsFiltered t t' × AreFiltered ts ts'
  AreFiltered _ _ = ⊥

  abbrev pub has_method : Tests → Bool
  has_method t = not (is_nil t.methods)

  filter_files_lem :
      (ts : List Tests) (st : CheckState) (b : Bool) (ts' : List Tests) (found : Bool)
      (st' : CheckState)
      → filter_files q gen ts st b ≡ ok (ts', found, st')
      → AreFiltered ts ts' × (found ≡ (b || any has_method ts'))
  unfolding filter_files
  filter_files_lem [] st b ts' found st' e =
      let k : [] ≡ ts' = ground arith in
      subst (λ l. AreFiltered [] l × (found ≡ (b || any has_method l))) k (tt, ground arith)
  filter_files_lem (t ∷ ts) st b ts' found st' e = elim (Result-cases (filter_tests q gen t st)) [
    | inr (bad, thrown) ↦ absurd (ground arith)
    | inl ((t₁, st₁), first) ↦
        elim (Result-cases (filter_files q gen ts st₁ (b || has_method t₁))) [
          | inr (bad, thrown) ↦ absurd (ground arith)
          | inl ((rest, found₁, st₂), done) ↦
              let ih = filter_files_lem ts st₁ (b || has_method t₁) rest found₁ st₂ done in
              let k : t₁ ∷ rest ≡ ts' = ground arith in
              subst (λ l. AreFiltered (t ∷ ts) l × (found ≡ (b || any has_method l))) k
                ((filter_tests-IsFiltered t t₁ st st₁ first, ih.0), ground (arith, ih.1))
        ]
  ]

  -- A filter that returns gives the same files in the same order, and some method if it was asked to
  -- throw for want of one. Each file has as many comments more as it has methods fewer, and every
  -- method that is left is accepted: its return type and its parameters were supported when asked
  -- about and are complete, it is public, the query for private arrays answered no for each struct
  -- among them, it is static only if that is asked for, inline only if static or extern, and its
  -- class, if it has one, is known, has a default constructor and got the answer no as well. This
  -- holds whatever answers the queries give.
  pub filter_lem :
      (throw : Bool) (ts : List Tests) (st : CheckState) (ts' : List Tests) (st' : CheckState)
      → filter q gen throw ts st ≡ ok (ts', st')
      → AreFiltered ts ts' × ((not throw || any has_method ts') ≡ true)
  unfolding filter
  filter_lem throw ts st ts' st' e = elim (Result-cases (filter_files q gen ts st false)) [
    | inr (bad, thrown) ↦ absurd (ground arith)
    | inl ((l, found, s), done) ↦
        let ih = filter_files_lem ts st false l found s done in
        let k : l ≡ ts' = ground arith in
        subst (λ n. AreFiltered ts n × ((not throw || any has_method n) ≡ true)) k
          (ih.0, ground (arith, ih.1))
  ]
