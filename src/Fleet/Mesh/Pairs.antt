-- ===== src/Fleet/Mesh/Pairs.antt =====
-- Which pairs of agents the mesh has.
use dgraphai.Fleet.Mesh.{get_mesh}
use dgraphai.Fleet.Model.{Fleet, System, answered, list_or_empty, own_fleet}
use dgraphai.Prelude.{some}
use dgraphai.Prelude.Dict.{lookup}
use dgraphai.Fleet.Mesh.{Edge, add_entries, add_probe, add_probes, edge_of, is_seen, same_pair}
use dgraphai.Fleet.Model.{Entry, Floats, Probe, value_or}
use dgraphai.Prelude.{
  All, All-append, Bool, List, String, [], arith, eq_iff, eq_refl, false, if◌then◌else◌, not, refl,
  true, ◌&&◌, ◌++◌, ◌∷◌, ◌≡◌,
}

module _ (F : Floats) where
  -- No two edges are between the same agents.
  abbrev pub IsDistinct : List (Edge F) → Type 0
  IsDistinct [] = Unit
  IsDistinct (e ∷ es) =
      All (λ x. same_pair e.from_id e.to_id x.from_id x.to_id ≡ false) es × IsDistinct es

  same_pair_sym : (a b c d : String) → same_pair a b c d ≡ false → same_pair c d a b ≡ false
  same_pair_sym a b c d h = ground (
    arith,
    eq_iff a c,
    eq_iff b d,
    eq_iff a d,
    eq_iff b c,
    eq_iff c a,
    eq_iff d b,
    eq_iff d a,
    eq_iff c b,
  )

  append-IsDistinct :
      (es : List (Edge F)) (n : Edge F)
      → is_seen F n.from_id n.to_id es ≡ false
      → IsDistinct es
      → IsDistinct (es ++ n ∷ [])
  append-IsDistinct [] n s h = (_, _)
  append-IsDistinct (e ∷ es) n s h = (
    All-append (λ x. same_pair e.from_id e.to_id x.from_id x.to_id ≡ false) es (n ∷ []) h.0
        (same_pair_sym n.from_id n.to_id e.from_id e.to_id (ground arith), _),
    append-IsDistinct es n (ground arith) h.1,
  )

  on_test :
      (from_id : String) (p : Probe F) (es : List (Edge F)) (seen reached : Bool)
      → is_seen F from_id (value_or p.peer_agent_id "") es ≡ seen
      → IsDistinct es
      → IsDistinct (if not seen && reached then es ++ edge_of F from_id p ∷ [] else es)
  on_test from_id p es true reached s h = h
  on_test from_id p es false false s h = h
  on_test from_id p es false true s h = append-IsDistinct es (edge_of F from_id p) s h

  add_probe-IsDistinct :
      (from_id : String) (p : Probe F) (es : List (Edge F))
      → IsDistinct es
      → IsDistinct (add_probe F from_id p es)
  add_probe-IsDistinct from_id p es h =
      on_test from_id p es (is_seen F from_id (value_or p.peer_agent_id "") es) p.reachable refl h

  add_probes-IsDistinct :
      (from_id : String) (ps : List (Probe F)) (es : List (Edge F))
      → IsDistinct es
      → IsDistinct (add_probes F from_id ps es)
  add_probes-IsDistinct from_id [] es h = h
  add_probes-IsDistinct from_id (p ∷ ps) es h =
      add_probes-IsDistinct from_id ps (add_probe F from_id p es)
        (add_probe-IsDistinct from_id p es h)

  add_entries-IsDistinct : (xs : List (Entry F)) → IsDistinct (add_entries F xs [])
  add_entries-IsDistinct [] = _
  add_entries-IsDistinct (x ∷ xs) =
      add_probes-IsDistinct x.from_agent x.probes (add_entries F xs []) (add_entries-IsDistinct xs)

  seen-append :
      (a b : String) (es : List (Edge F)) (n : Edge F)
      → is_seen F a b es ≡ true
      → is_seen F a b (es ++ n ∷ []) ≡ true
  seen-append a b [] n h = ground arith
  seen-append a b (e ∷ es) n h = ground (arith, seen-append a b es n)

  seen-new : (es : List (Edge F)) (n : Edge F) → is_seen F n.from_id n.to_id (es ++ n ∷ []) ≡ true
  seen-new [] n = ground (arith, eq_refl n.from_id, eq_refl n.to_id)
  seen-new (e ∷ es) n = ground (arith, seen-new es n)

  add_probe-seen :
      (a b from_id : String) (p : Probe F) (es : List (Edge F))
      → is_seen F a b es ≡ true
      → is_seen F a b (add_probe F from_id p es) ≡ true
  add_probe-seen a b from_id p es h = ground (arith, seen-append a b es (edge_of F from_id p))

  add_probes-seen :
      (a b from_id : String) (ps : List (Probe F)) (es : List (Edge F))
      → is_seen F a b es ≡ true
      → is_seen F a b (add_probes F from_id ps es) ≡ true
  add_probes-seen a b from_id [] es h = h
  add_probes-seen a b from_id (p ∷ ps) es h =
      add_probes-seen a b from_id ps (add_probe F from_id p es) (add_probe-seen a b from_id p es h)

  -- The pair of each probe that reached its peer has an edge.
  abbrev pub Covers : List (Edge F) → Entry F → Type 0
  Covers es x =
      All (λ p. p.reachable ≡ true → is_seen F x.from_agent (value_or p.peer_agent_id "") es ≡ true)
        x.probes

  add_probe-covers :
      (from_id : String) (p : Probe F) (es : List (Edge F))
      → p.reachable ≡ true
      → is_seen F from_id (value_or p.peer_agent_id "") (add_probe F from_id p es) ≡ true
  add_probe-covers from_id p es h = ground (arith, seen-new es (edge_of F from_id p))

  add_probes-covers :
      (from_id : String) (ps : List (Probe F)) (es : List (Edge F))
      → All
          (λ p.
            p.reachable ≡ true
            → is_seen F from_id (value_or p.peer_agent_id "") (add_probes F from_id ps es) ≡ true)
          ps
  add_probes-covers from_id [] es = _
  add_probes-covers from_id (p ∷ ps) es = (
    λ h.
        add_probes-seen from_id (value_or p.peer_agent_id "") from_id ps (add_probe F from_id p es)
          (add_probe-covers from_id p es h),
    add_probes-covers from_id ps (add_probe F from_id p es),
  )

  covers-more :
      (from_id : String) (ps : List (Probe F)) (es es' : List (Edge F))
      → ((a b : String) → is_seen F a b es ≡ true → is_seen F a b es' ≡ true)
      → All (λ p. p.reachable ≡ true → is_seen F from_id (value_or p.peer_agent_id "") es ≡ true) ps
      → All
          (λ p. p.reachable ≡ true → is_seen F from_id (value_or p.peer_agent_id "") es' ≡ true)
          ps
  covers-more from_id [] es es' up h = _
  covers-more from_id (p ∷ ps) es es' up h =
      (λ r. up from_id (value_or p.peer_agent_id "") (h.0 r), covers-more from_id ps es es' up h.1)

  All-more :
      (xs : List (Entry F)) (es es' : List (Edge F))
      → ((a b : String) → is_seen F a b es ≡ true → is_seen F a b es' ≡ true)
      → All (Covers es) xs
      → All (Covers es') xs
  All-more [] es es' up h = _
  All-more (x ∷ xs) es es' up h =
      (covers-more x.from_agent x.probes es es' up h.0, All-more xs es es' up h.1)

  add_entries-Covers : (xs : List (Entry F)) → All (Covers (add_entries F xs [])) xs
  add_entries-Covers [] = _
  add_entries-Covers (x ∷ xs) = (
    add_probes-covers x.from_agent x.probes (add_entries F xs []),
    All-more xs (add_entries F xs []) (add_probes F x.from_agent x.probes (add_entries F xs []))
        (λ a b. add_probes-seen a b x.from_agent x.probes (add_entries F xs []))
        (add_entries-Covers xs),
  )

  -- The mesh of a tenant's own fleet: no two edges are between the same two agents, in whatever order,
  -- and each probe of the telemetry that reached its peer has an edge between its two agents.
  pub get_mesh_lem :
      (fleet_id tenant : String) (s : System F) (f : Fleet)
      → own_fleet tenant fleet_id s.fleets ≡ some f
      → (es : List (Edge F)) × (get_mesh F fleet_id tenant s ≡ answered es)
        × IsDistinct es
        × All (Covers es) (list_or_empty (lookup fleet_id s.telemetry))
  unfolding get_mesh
  get_mesh_lem fleet_id tenant s f own =
      let xs = list_or_empty (lookup fleet_id s.telemetry) in
      (
        add_entries F xs [],
        rw (get_mesh, own) refl,
        add_entries-IsDistinct xs,
        add_entries-Covers xs,
      )
