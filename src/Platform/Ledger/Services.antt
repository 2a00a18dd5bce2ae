-- ===== src/Platform/Ledger/Services.antt =====
-- The counts of tools by service add up.
use ai_troubleshooter.Prelude.{
  ℕ, ◌+◌, String, List, [], ◌∷◌, arith, length, inl, inr, Bool-cases, if◌then◌else◌, ◌==◌, ◌≡◌,
  refl, eq_iff,
}
use ai_troubleshooter.Python.{Runtime, Fields}
use ai_troubleshooter.Platform.Ledger.{
  bump, service_of, count_services, compact_gateway_tools_payload,
}

abbrev pub total : List (String × ℕ) → ℕ
total [] = 0
total ((k, n) ∷ rest) = n + total rest

-- `services.get(name, 0)`
abbrev pub count_of : String → List (String × ℕ) → ℕ
count_of name [] = 0
count_of name ((k, n) ∷ rest) = if k == name then n else count_of name rest

total-bump :
    (name : String) (services : List (String × ℕ)) → total (bump name services) ≡ total services + 1
unfolding bump
total-bump name [] = refl
total-bump name ((k, n) ∷ rest) = elim (Bool-cases (k == name)) [
  | inl e ↦ rw e (omega arith)
  | inr e ↦ rw e (omega (arith, total-bump name rest))
]

count_of-bump :
    (name other : String) (services : List (String × ℕ))
    → count_of other (bump name services)
      ≡ count_of other services + (if name == other then 1 else 0)
unfolding bump
count_of-bump name other [] = ground arith
count_of-bump name other ((k, n) ∷ rest) =
    ground (arith, count_of-bump name other rest, eq_iff k name, eq_iff k other, eq_iff name other)

module _ ⦃py : Runtime⦄ where
  -- how many of the tools belong to a service
  abbrev pub tools_of : String → List Fields → ℕ
  tools_of name [] = 0
  tools_of name (item ∷ rest) = (if service_of item == name then 1 else 0) + tools_of name rest

  total-count_services :
      (services : List (String × ℕ)) (tools : List Fields)
      → total (count_services services tools) ≡ total services + length tools
  unfolding count_services
  total-count_services services [] = omega arith
  total-count_services services (item ∷ rest) = omega (
    arith,
    total-count_services (bump (service_of item) services) rest,
    total-bump (service_of item) services,
  )

  count_of-count_services :
      (name : String) (services : List (String × ℕ)) (tools : List Fields)
      → count_of name (count_services services tools) ≡ count_of name services + tools_of name tools
  unfolding count_services
  count_of-count_services name services [] = omega arith
  count_of-count_services name services (item ∷ rest) = omega (
    arith,
    count_of-count_services name (bump (service_of item) services) rest,
    count_of-bump (service_of item) name services,
  )

  -- The payload counts every tool once: the counts of the services add up to the number of tools, and
  -- a service's count is the number of its tools.
  pub compact_gateway_tools_payload-counts :
      (tools : List Fields) (name : String)
      → (total (compact_gateway_tools_payload tools).services
          ≡ (compact_gateway_tools_payload tools).tool_count)
        × (count_of name (compact_gateway_tools_payload tools).services ≡ tools_of name tools)
  unfolding compact_gateway_tools_payload
  compact_gateway_tools_payload-counts tools name = (
    omega (arith, total-count_services [] tools),
    omega (arith, count_of-count_services name [] tools),
  )
