-- ===== src/Placement/Chosen.antt =====
-- What the search for a server promises about the server that it chooses.
use codegen_orchestrator.Prelude.{
  ℕ, ◌+◌, ◌≤◌, Bool, true, false, none, List, [], ◌∷◌, ◌≡◌, inl, inr, refl, subst, arith, All, leb,
  ltb, if◌then◌else◌, Bool-cases, Option-cases,
}
use codegen_orchestrator.Placement.Admission.{
  Server, server_admission_rejection, provisioning_failed_server_handles,
}
use codegen_orchestrator.Placement.Search.{
  Fleet, Verdict, refused, short_disk, short_reserved, stale, short_free, fits, judge, suitable,
  most_headroom, failure_reason, find_suitable_server, managed, placed, reserved_ram_mb,
  has_fresh_metrics, allocation_required_ram_mb, AllocationFailureReason, choose,
}

-- No more headroom than `h`.
abbrev pub at_most : ℕ → Verdict → Bool
at_most h (fits k) = leb k h
at_most h _ = true

abbrev pub is_fit : Verdict → Bool
is_fit (fits k) = true
is_fit _ = false

module _ (fleet : Fleet) (ram disk : ℕ) where
  -- The two lemmas below take what holds of the rest of the list.
  suitable-fits_cons :
      (Q : Server → Type 0) (s : Server) (rest : List (Server × ℕ)) (v : Verdict)
      → Q s
      → judge fleet ram disk s ≡ v
      → All (λ (c : Server × ℕ). Q c.0 × (judge fleet ram disk c.0 ≡ fits c.1)) rest
      → All
          (λ (c : Server × ℕ). Q c.0 × (judge fleet ram disk c.0 ≡ fits c.1))
          (elim v [ fits headroom ↦ (s, headroom) ∷ rest | _ ↦ rest ])
  suitable-fits_cons Q s rest (refused r) q e a = a
  suitable-fits_cons Q s rest short_disk q e a = a
  suitable-fits_cons Q s rest short_reserved q e a = a
  suitable-fits_cons Q s rest stale q e a = a
  suitable-fits_cons Q s rest short_free q e a = a
  suitable-fits_cons Q s rest (fits h) q e a = ((q, e), a)

  suitable-fits :
      (Q : Server → Type 0) (servers : List Server)
      → All Q servers
      → All
          (λ (c : Server × ℕ). Q c.0 × (judge fleet ram disk c.0 ≡ fits c.1))
          (suitable fleet ram disk servers)
  unfolding suitable
  suitable-fits Q [] q = tt
  suitable-fits Q (s ∷ servers) (q, qs) =
      suitable-fits_cons Q s (suitable fleet ram disk servers) (judge fleet ram disk s) q refl
        (suitable-fits Q servers qs)

  suitable-at_most_cons :
      (h : ℕ) (s : Server) (rest : List (Server × ℕ)) (v : Verdict) (servers : List Server)
      → (All (λ (c : Server × ℕ). leb c.1 h ≡ true) rest
          → All (λ t. at_most h (judge fleet ram disk t) ≡ true) servers)
      → All
          (λ (c : Server × ℕ). leb c.1 h ≡ true)
          (elim v [ fits headroom ↦ (s, headroom) ∷ rest | _ ↦ rest ])
      → (at_most h v ≡ true) × All (λ t. at_most h (judge fleet ram disk t) ≡ true) servers
  suitable-at_most_cons h s rest (refused r) servers i a = (refl, i a)
  suitable-at_most_cons h s rest short_disk servers i a = (refl, i a)
  suitable-at_most_cons h s rest short_reserved servers i a = (refl, i a)
  suitable-at_most_cons h s rest stale servers i a = (refl, i a)
  suitable-at_most_cons h s rest short_free servers i a = (refl, i a)
  suitable-at_most_cons h s rest (fits k) servers i (l, a) = (l, i a)

  suitable-at_most :
      (h : ℕ) (servers : List Server)
      → All (λ (c : Server × ℕ). leb c.1 h ≡ true) (suitable fleet ram disk servers)
      → All (λ s. at_most h (judge fleet ram disk s) ≡ true) servers
  unfolding suitable
  suitable-at_most h [] a = tt
  suitable-at_most h (s ∷ servers) a =
      suitable-at_most_cons h s (suitable fleet ram disk servers) (judge fleet ram disk s) servers
        (suitable-at_most h servers) a

  -- What it takes for a server to fit.
  judge-fits :
      (srv : Server) (h : ℕ)
      → judge fleet ram disk srv ≡ fits h
      → (server_admission_rejection srv (provisioning_failed_server_handles fleet.incidents) ≡ none)
        × (disk ≤ srv.capacity_disk_mb)
        × (reserved_ram_mb fleet srv + ram ≤ srv.capacity_ram_mb)
        × (srv.used_ram_mb + ram ≤ srv.capacity_ram_mb)
        × (has_fresh_metrics fleet.now srv.last_health_check fleet.metrics_freshness_seconds ≡ true)
  unfolding judge
  judge-fits srv h e =
      elim (Option-cases
        (server_admission_rejection srv (provisioning_failed_server_handles fleet.incidents))) [
          | inr (r, a) ↦ absurd (ground arith)
          | inl a ↦
              elim (Bool-cases (
                has_fresh_metrics fleet.now srv.last_health_check
                  fleet.metrics_freshness_seconds)) [
                    | inr m ↦ absurd (ground arith)
                    | inl m ↦ (a, ground arith, ground arith, ground arith, m)
                  ]
        ]

most_headroom-All :
    (P : Server × ℕ → Type 0) (best : Server × ℕ) (rest : List (Server × ℕ))
    → P best
    → All P rest
    → P (most_headroom best rest)
unfolding most_headroom
most_headroom-All P best [] p ps = p
most_headroom-All P best (c ∷ rest) p (q, ps) =
    most_headroom-All P (if ltb best.1 c.1 then c else best) rest (go (ltb best.1 c.1)) ps
  where
    go : (b : Bool) → P (if b then c else best)
    go true = q
    go false = p

most_headroom_mono :
    (best : Server × ℕ) (rest : List (Server × ℕ)) → leb best.1 (most_headroom best rest).1 ≡ true
unfolding most_headroom
most_headroom_mono best [] = ground arith
most_headroom_mono best (c ∷ rest) =
    ground (arith, most_headroom_mono (if ltb best.1 c.1 then c else best) rest)

most_headroom-at_most :
    (best : Server × ℕ) (rest : List (Server × ℕ))
    → All (λ (c : Server × ℕ). leb c.1 (most_headroom best rest).1 ≡ true) rest
unfolding most_headroom
most_headroom-at_most best [] = tt
most_headroom-at_most best (c ∷ rest) = (
  ground (arith, most_headroom_mono (if ltb best.1 c.1 then c else best) rest),
  most_headroom-at_most (if ltb best.1 c.1 then c else best) rest,
)

-- The choice among candidates, by the candidates' own list.
chosen :
    (fleet : Fleet) (ram disk : ℕ) (Q : Server → Type 0) (servers : List Server)
    (candidates : List (Server × ℕ))
    → All (λ (c : Server × ℕ). Q c.0 × (judge fleet ram disk c.0 ≡ fits c.1)) candidates
    → (reason : AllocationFailureReason) (srv : Server) → choose candidates reason ≡ placed srv
    → (h : ℕ) × (Q srv × (judge fleet ram disk srv ≡ fits h))
      × All (λ (c : Server × ℕ). leb c.1 h ≡ true) candidates
chosen fleet ram disk Q servers [] a reason srv h = absurd (ground arith)
chosen fleet ram disk Q servers (best ∷ rest) (b, bs) reason srv h =
    let top = most_headroom best rest in
    let same : top.0 ≡ srv = ground arith in
    (
      top.1,
      subst (λ s. Q s × (judge fleet ram disk s ≡ fits top.1)) same
          (most_headroom-All (λ (c : Server × ℕ). Q c.0 × (judge fleet ram disk c.0 ≡ fits c.1))
            best rest b bs),
      (most_headroom_mono best rest, most_headroom-at_most best rest),
    )

-- The server that the search chooses is one of the managed servers (what holds of all of them holds
-- of it); it may host an application, has disk for the request, has room for it beside the
-- reservations and beside the observed use, and has fresh metrics; and no managed server that fits
-- has more headroom.
pub find_suitable_server-placed :
    (fleet : Fleet) (min_ram_mb min_disk_mb : ℕ) (srv : Server) (Q : Server → Type 0)
    → find_suitable_server fleet min_ram_mb min_disk_mb ≡ placed srv
    → All Q (managed fleet.servers)
    → let ram = allocation_required_ram_mb fleet min_ram_mb in
      Q srv
      × (server_admission_rejection srv (provisioning_failed_server_handles fleet.incidents) ≡ none)
      × (min_disk_mb ≤ srv.capacity_disk_mb)
      × (reserved_ram_mb fleet srv + ram ≤ srv.capacity_ram_mb)
      × (srv.used_ram_mb + ram ≤ srv.capacity_ram_mb)
      × (has_fresh_metrics fleet.now srv.last_health_check fleet.metrics_freshness_seconds ≡ true)
      × ((headroom : ℕ) × (judge fleet ram min_disk_mb srv ≡ fits headroom)
          × All
              (λ s. at_most headroom (judge fleet ram min_disk_mb s) ≡ true)
              (managed fleet.servers))
unfolding find_suitable_server
find_suitable_server-placed fleet min_ram_mb disk srv Q h q =
    let ram = allocation_required_ram_mb fleet min_ram_mb in
    let servers = managed fleet.servers in
    let (best, (p, f), m) =
      chosen fleet ram disk Q servers (suitable fleet ram disk servers)
        (suitable-fits fleet ram disk Q servers q) (failure_reason fleet ram disk servers) srv h in
    let (a, d, r, u, n) = judge-fits fleet ram disk srv best f in
    (p, a, d, r, u, n, (best, f, suitable-at_most fleet ram disk best servers m))
