-- ===== src/Trust/Passes.antt =====
-- Repeated passes over one Bronze layer: each reads the first page again.
use cryptopulse.Prelude.{
  suc, ◌≡◌, ◌∙◌, sym, ap, refl, inl, inr, String, true, false, List, [], ◌∷◌, arith, Bool-cases,
}
use cryptopulse.Prelude.Int.{ℤ, pos, ltb_ℤ}
use cryptopulse.Python.Call.{Call, returned, raised, returned-injective}
use cryptopulse.Contracts.Events.{InternalEvent}
use cryptopulse.Validation.Rules.{Rule}
use cryptopulse.Warehouse.Rows.{Row}
use cryptopulse.Warehouse.Schemas.Bronze.{record_to_internal_event}
use cryptopulse.Warehouse.World.{
  Environment, World, Result, ok, err, value_error, storage_error, fetch, or_storage_error, now,
  execute, tick,
}
use cryptopulse.Warehouse.Effects.{bind_keeps, >>=-eq-ok}
use cryptopulse.Warehouse.Table.{map_rows, has_key, insert_new}
use cryptopulse.Warehouse.Table.Keys.{has_key-append, has_key-insert_new, insert_new_present}
use cryptopulse.Warehouse.Bronze
use cryptopulse.Warehouse.Bronze.{replay_rows}
use cryptopulse.Warehouse.Silver
use cryptopulse.Warehouse.Quarantine
use cryptopulse.Trust.Rounds.{decide, route_one-route}
use cryptopulse.Trust.{
  TrustRoutingResult, nothing_routed, route, route_one, route_all, process_batch,
}
use cryptopulse.Trust.Frame.{
  Extends, trusted_row, silver-route_one, route_all-OnlyAdds, process_batch-OnlyAdds,
  replay-SameTables,
}
use cryptopulse.Trust.Routing.{
  KeepsText, event_id-trusted_row, accepts, read_and_route, process_batch-limit_ok,
  process_batch-bad_limit,
}

-- Rows that are only added to keep their keys.
has_key-Extends :
    (k : String) (xs ys : List Row)
    → Extends xs ys
    → has_key "event_id" k xs ≡ true
    → has_key "event_id" k ys ≡ true
has_key-Extends k xs ys (more, e) h = rw (e, has_key-append) (ground (arith, h))

module _ (env : Environment) where
  -- The events of a page, from the rows of Bronze.
  abbrev pub decoded : ℤ → World → Call (List InternalEvent)
  decoded limit w = map_rows record_to_internal_event (replay_rows env (pos 0) limit w)

  or_storage_error-ok :
      {A : Type 0} (c : Call A) (w : World) {a : A}
      → (or_storage_error c w).0 ≡ ok a
      → c ≡ returned a
  or_storage_error-ok (returned x) w h = ap returned (ground arith)
  or_storage_error-ok (raised x) w h = cc

  replay-bad_limit :
      (limit : ℤ) (w : World)
      → ltb_ℤ limit (pos 1) ≡ true
      → (Bronze.replay env (pos 0) limit w).0 ≡ err (value_error "limit must be >= 1")
  unfolding Bronze.replay
  replay-bad_limit limit w h = rw h

  replay-refused :
      (limit : ℤ) (w : World)
      → ltb_ℤ limit (pos 1) ≡ false
      → env.refuses w.ticks ≡ true
      → (Bronze.replay env (pos 0) limit w).0
        ≡ err (storage_error "failed to read events from Bronze")
  unfolding Bronze.replay fetch
  replay-refused limit w h k = rw (h, k)

  replay-read :
      (limit : ℤ) (w : World)
      → ltb_ℤ limit (pos 1) ≡ false
      → env.refuses w.ticks ≡ false
      → Bronze.replay env (pos 0) limit w ≡ or_storage_error (decoded limit w) (tick w)
  unfolding Bronze.replay fetch
  replay-read limit w h k = rw (h, k)

  -- A replay that returns has decoded the page.
  pub replay-decoded :
      (limit : ℤ) (w : World) (es : List InternalEvent)
      → (Bronze.replay env (pos 0) limit w).0 ≡ ok es
      → decoded limit w ≡ returned es
  replay-decoded limit w es h = elim (Bool-cases (ltb_ℤ limit (pos 1))) [
    | inl bad ↦ absurd (ground (arith, replay-bad_limit limit w bad))
    | inr good ↦ elim (Bool-cases (env.refuses w.ticks)) [
      | inl refused ↦ absurd (ground (arith, replay-refused limit w good refused))
      | inr read ↦
          or_storage_error-ok (decoded limit w) (tick w) (rw (replay-read limit w good read) at h)
    ]
  ]

  pub decoded-bronze :
      (limit : ℤ) (u v : World) → v.bronze ≡ u.bronze → decoded limit v ≡ decoded limit u
  unfolding replay_rows
  decoded-bronze limit u v e = rw e

module _ (env : Environment) (rules : List Rule) (keeps : KeepsText env) where
  -- Every accepted event of the list has a row in Silver.
  abbrev pub Present : List InternalEvent → List Row → Type 0
  Present [] rows = Unit {0}
  Present (e ∷ es) rows =
      (accepts env rules e ≡ true → has_key "event_id" e.event_id rows ≡ true) × Present es rows

  Present-Extends :
      (es : List InternalEvent) (xs ys : List Row) → Extends xs ys → Present es xs → Present es ys
  Present-Extends [] xs ys h p = tt
  Present-Extends (e ∷ es) xs ys h p =
      (λ a. has_key-Extends e.event_id xs ys h (p.0 a), Present-Extends es xs ys h p.1)

  insert_trusted_present :
      (e : InternalEvent) (w : World)
      → has_key "event_id" e.event_id w.silver ≡ true
      → insert_new "event_id" (trusted_row env rules e w) w.silver ≡ w.silver
  insert_trusted_present e w h =
      insert_new_present "event_id" (trusted_row env rules e w) w.silver
        (rw (event_id-trusted_row env rules e w keeps) h)

  route_one-still :
      (e : InternalEvent) (r : TrustRoutingResult) (w : World)
      → (accepts env rules e ≡ true → has_key "event_id" e.event_id w.silver ≡ true)
      → (route_one env rules e r w).1.silver ≡ w.silver
  route_one-still e r w h =
      silver-route_one env rules e w r ∙ (elim (Bool-cases (accepts env rules e)) [
        | inr rejected ↦ rw rejected
        | inl accepted ↦ rw accepted (elim (Bool-cases (env.refuses (suc w.ticks))) [
          | inl refused ↦ rw refused
          | inr done ↦ rw done (insert_trusted_present e w (h accepted))
        ])
      ])

  route_one-present :
      (e : InternalEvent) (r r' : TrustRoutingResult) (w : World)
      → (route_one env rules e r w).0 ≡ ok r'
      → accepts env rules e ≡ true
      → has_key "event_id" e.event_id (route_one env rules e r w).1.silver ≡ true
  unfolding route now execute Silver.append Quarantine.append_record
  route_one-present e r r' w h a =
      let same = route_one-route env rules e r w in
      let h' : (route env rules e r (decide env rules e) w).0 ≡ ok r' = rw same at h in
      rw same (
        ground (
          arith,
          has_key-insert_new "event_id" (trusted_row env rules e w) w.silver,
          event_id-trusted_row env rules e w keeps,
        ))

  route_all-still :
      (es : List InternalEvent) (r : TrustRoutingResult) (w : World)
      → Present es w.silver
      → (route_all env rules es r w).1.silver ≡ w.silver
  unfolding route_all
  route_all-still [] r w = λ p. refl
  route_all-still (e ∷ es) r w =
      bind_keeps (λ u v. Present (e ∷ es) u.silver → v.silver ≡ u.silver)
        (λ u v x h k p. k (rw (h p) p) ∙ h p) (route_one env rules e r) _ w
        (λ p. route_one-still e r w p.0) λ r'. λ p. route_all-still es r' _ p.1

  route_all-Present :
      (es : List InternalEvent) (r r' : TrustRoutingResult) (w : World)
      → (route_all env rules es r w).0 ≡ ok r'
      → Present es (route_all env rules es r w).1.silver
  unfolding route_all
  route_all-Present [] r r' w h = tt
  route_all-Present (e ∷ es) r r' w h =
      let (m, first, rest) =
        >>=-eq-ok (route_one env rules e r) (λ (t : TrustRoutingResult). route_all env rules es t) w
          h in
      let w1 = (route_one env rules e r w).1 in
      rw first (
        λ a.
            has_key-Extends e.event_id w1.silver (route_all env rules es m w1).1.silver
              (route_all-OnlyAdds env rules es m w1).silver (route_one-present e r m w first a),
        route_all-Present es m r' w1 rest,
      )

  -- The events of the first page are known, and the accepted ones are in Silver.
  abbrev pub Settled : ℤ → World → Type 0
  Settled limit w =
      (es : List InternalEvent) × (decoded env limit w ≡ returned es) × Present es w.silver

  read_and_route-still :
      (limit : ℤ) (w : World)
      → Settled limit w
      → (read_and_route env rules limit w).1.silver ≡ w.silver
  read_and_route-still limit w (es, page, present) = go (Bronze.replay env (pos 0) limit w).0 refl
    where
      go :
          (x : Result (List InternalEvent))
          → (Bronze.replay env (pos 0) limit w).0 ≡ x
          → (read_and_route env rules limit w).1.silver ≡ w.silver
      go (err e) h = rw h (replay-SameTables env (pos 0) limit w).1
      go (ok es') h =
          let same : es' ≡ es =
            returned-injective (sym (replay-decoded env limit w es' h) ∙ page) in
          let tables = replay-SameTables env (pos 0) limit w in
          rw h (
            route_all-still es' nothing_routed (Bronze.replay env (pos 0) limit w).1
              (rw (same, tables.1) present)
            ∙ tables.1)

  -- From a settled world a pass leaves Silver as it is, and the world settled.
  pub process_batch-still :
      (limit : ℤ) (w : World)
      → Settled limit w
      → (process_batch env rules limit w).1.silver ≡ w.silver
  process_batch-still limit w s = elim (Bool-cases (ltb_ℤ limit (pos 1))) [
    | inl bad ↦ rw (process_batch-bad_limit env rules limit w bad)
    | inr good ↦ rw (process_batch-limit_ok env rules limit w good) (read_and_route-still limit w s)
  ]

  pub process_batch-Settled :
      (limit : ℤ) (w : World) → Settled limit w → Settled limit (process_batch env rules limit w).1
  process_batch-Settled limit w s = (
    s.0,
    decoded-bronze env limit w _ (process_batch-OnlyAdds env rules limit w).bronze ∙ s.1,
    rw (process_batch-still limit w s) s.2,
  )

  read_and_route-Settled :
      (limit : ℤ) (r : TrustRoutingResult) (w : World)
      → (read_and_route env rules limit w).0 ≡ ok r
      → (es : List InternalEvent) × (decoded env limit w ≡ returned es)
        × Present es (read_and_route env rules limit w).1.silver
  read_and_route-Settled limit r w h =
      let (es, read, routed) =
        >>=-eq-ok (Bronze.replay env (pos 0) limit)
          (λ (t : List InternalEvent). route_all env rules t nothing_routed) w h in
      (
        es,
        replay-decoded env limit w es read,
        rw read
            (route_all-Present es nothing_routed r (Bronze.replay env (pos 0) limit w).1 routed),
      )

  -- A pass that succeeded leaves a settled world.
  pub process_batch-settles :
      (limit : ℤ) (r : TrustRoutingResult) (w : World)
      → (process_batch env rules limit w).0 ≡ ok r
      → Settled limit (process_batch env rules limit w).1
  process_batch-settles limit r w h = elim (Bool-cases (ltb_ℤ limit (pos 1))) [
    | inl bad ↦ absurd (ground (arith, process_batch-bad_limit env rules limit w bad))
    | inr good ↦
        (let (es, page, present) =
            read_and_route-Settled limit r w
              (rw (process_batch-limit_ok env rules limit w good) at h) in
          (
            es,
            decoded-bronze env limit w _ (process_batch-OnlyAdds env rules limit w).bronze ∙ page,
            rw (process_batch-limit_ok env rules limit w good) present,
          ))
  ]
