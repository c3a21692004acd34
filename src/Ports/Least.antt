-- ===== src/Ports/Least.antt =====
-- services/api/src/routers/servers.py: which port is allocated.
use codegen_orchestrator.Prelude.{
  ℕ, zero, suc, ◌+◌, ◌≤◌, ◌<◌, Bool, true, false, List, [], ◌∷◌, ◌≡◌, refl, arith, inl, inr,
  Bool-cases, length, leb, ◌==◌, if◌then◌else◌,
}
use codegen_orchestrator.Prelude.Count.{count}
use codegen_orchestrator.Ports.Allocation.{holds, search, next_free}

-- How many of the ports are not below.
abbrev above : ℕ → List ℕ → ℕ
above p ports = count (λ x. leb p x) ports

above-suc : (p : ℕ) (ports : List ℕ) → above (suc p) ports ≤ above p ports
above-suc p [] = omega arith
above-suc p (x ∷ xs) = ground (arith, above-suc p xs)

above-holds :
    (p : ℕ) (ports : List ℕ) → holds p ports ≡ true → suc (above (suc p) ports) ≤ above p ports
above-holds p [] h = absurd (ground arith)
above-holds p (x ∷ xs) h = elim (Bool-cases (x == p)) [
  | inl y ↦ ground (arith, above-suc p xs)
  | inr n ↦ ground (arith, above-holds p xs)
]

above-length : (p : ℕ) (ports : List ℕ) → above p ports ≤ length ports
above-length p [] = omega arith
above-length p (x ∷ xs) = ground (arith, above-length p xs)

-- A free port, not below the start, none of whose predecessors from the start on is free.
pub record IsLeast (ports : List ℕ) (start port : ℕ) : Type 0 where
  pub is_free : holds port ports ≡ false
  pub is_from : start ≤ port
  pub is_first : (p : ℕ) → start ≤ p → p < port → holds p ports ≡ true

start-IsLeast : (ports : List ℕ) (start : ℕ) → holds start ports ≡ false → IsLeast ports start start
start-IsLeast ports start n = record {
  is_free = n;
  is_from = omega arith;
  is_first = λ p a b. absurd (omega (arith, a, b));
}

later-IsLeast :
    (ports : List ℕ) (start port : ℕ)
    → holds start ports ≡ true
    → IsLeast ports (suc start) port
    → IsLeast ports start port
later-IsLeast ports start port y l = record {
  is_free = l.is_free;
  is_from = omega (arith, l.is_from);
  is_first = λ p a b. elim (Bool-cases (p == start)) [
    | inl e ↦ let same : p ≡ start = ground arith in ground (arith, same, y)
    | inr e ↦ l.is_first p (ground (arith, a)) b
  ];
}

search-IsLeast :
    (fuel : ℕ) (ports : List ℕ) (start : ℕ)
    → above start ports ≤ fuel
    → IsLeast ports start (search fuel ports start) × (search fuel ports start ≤ start + fuel)
unfolding search
search-IsLeast zero ports start h = (
  start-IsLeast ports start (elim (Bool-cases (holds start ports)) [
    | inr n ↦ n
    | inl y ↦ absurd (omega (arith, h, above-holds start ports y))
  ]),
  omega arith,
)
search-IsLeast (suc fuel) ports start h =
    go (holds start ports) refl (λ l. search-IsLeast fuel ports (suc start) l)
  where
    go :
        (b : Bool)
        → holds start ports ≡ b
        → (above (suc start) ports ≤ fuel
            → IsLeast ports (suc start) (search fuel ports (suc start))
              × (search fuel ports (suc start) ≤ suc start + fuel))
        → IsLeast ports start (if b then search fuel ports (suc start) else start)
          × ((if b then search fuel ports (suc start) else start) ≤ start + suc fuel)
    go false n f = (start-IsLeast ports start n, omega arith)
    go true y f =
        let (l, b) = f (omega (arith, h, above-holds start ports y)) in
        (later-IsLeast ports start (search fuel ports (suc start)) y l, omega (arith, b))

-- The search for a port ends at the first port from the start on that is free, and goes up by at most
-- as many ports as are allocated.
pub next_free-IsLeast :
    (ports : List ℕ) (start : ℕ)
    → IsLeast ports start (next_free ports start) × (next_free ports start ≤ start + length ports)
unfolding next_free
next_free-IsLeast ports start = search-IsLeast (length ports) ports start (above-length start ports)
