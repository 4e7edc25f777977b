-- ===== src/Filter/Server.antt =====
-- The filter as server/src/FeaturesFilter.cpp calls it: its queries answered by `isSupportedType` of
-- server/src/types/Types.cpp and by `hasPrivateArray`.
use utbot_cpp.Base.{ℕ, Bool, true, false, ◌≡◌, ◌≢◌, ◌⊎◌, [], none, some, All}
use utbot_cpp.Types.Kinds.{CType}
use utbot_cpp.Types.Dimension.{IsWellFormed}
use utbot_cpp.Types.Handler.{TypesHandler, is_struct_like}
use utbot_cpp.Types.Support.{
  TypeUsage, TypeSupport, CheckState, return, parameter, unsupported, is_supported_type,
}
use utbot_cpp.Filter.PrivateArrays.{has_private_array_fuel}
use utbot_cpp.Filter.Methods.{MethodParam, MethodDescription, Queries}
use utbot_cpp.Filter.Accepts.{Accepts}

-- A check that does not return is read as a refusal.
unfoldable pub support_of : TypesHandler → CType → TypeUsage → CheckState → TypeSupport × CheckState
support_of h t usage st = elim (is_supported_type h t usage st) [
  | some answer ↦ answer
  | none ↦ (unsupported [], st)
]

unfoldable pub private_array_of : TypesHandler → ℕ → CType → Bool
private_array_of h fuel t = elim (has_private_array_fuel h fuel t) [ some b ↦ b | none ↦ false ]

unfoldable pub server_queries : TypesHandler → ℕ → Queries
unfolding support_of private_array_of
server_queries h fuel = record {
  handler = h;
  support = support_of h;
  private_array = private_array_of h fuel;
}

-- `isSupportedType` returned, in some state of its caches, that the type is supported.
abbrev pub WasSupported : TypesHandler → TypeUsage → CType → Type 0
WasSupported h usage t =
    (st : CheckState) × (r : TypeSupport) × (st' : CheckState) × (is_supported_type h t usage st
      ≡ some (r, st'))
    × (r.is_supported ≡ true)

-- The type is no struct, or `hasPrivateArray` does not return true for it on the given fuel.
abbrev pub IsOpen : TypesHandler → ℕ → CType → Type 0
IsOpen h fuel t = (is_struct_like h t ≡ false) ⊎ (has_private_array_fuel h fuel t ≢ some true)

-- What the server has found out about a method that it keeps.
pub record IsServed (h : TypesHandler) (fuel : ℕ) (m : MethodDescription) : Type 0 where
  pub return_supported : WasSupported h return m.return_type
  pub params_supported : All (λ (p : MethodParam). WasSupported h parameter p.type) m.params
  pub return_open : IsOpen h fuel m.return_type
  pub params_open : All (λ (p : MethodParam). IsOpen h fuel p.type) m.params

-- The types of a method are well formed.
abbrev pub HasWellFormedTypes : MethodDescription → Type 0
HasWellFormedTypes m =
    IsWellFormed m.return_type × All (λ (p : MethodParam). IsWellFormed p.type) m.params
