-- ===== src/Monitor/Collectors/Rounds/Fair.antt =====
-- Every route has its turn (monitor/pr-monitor/src/collectors.ts).
use robotics_pacific_rim.Base.{
  Bool, false, Bool-cases, leb, ℕ, zero, suc, ◌+◌, ◌-◌, ◌%◌, ◌≤◌, ◌<◌, ◌≡◌, refl, ap, ◌∙◌, inl, inr,
  some, List, [], ◌∷◌, length, take, drop, get_elem?, select, is_empty, arith, Text,
}
use native.Mathlib.Nat.{mod-lt, mod-eq_of_lt, mod_self}
use robotics_pacific_rim.Monitor.Types.{EndpointInfo}
use robotics_pacific_rim.Monitor.Collectors.Rounds.{
  budget_of, next_cursor, sampled_at, dds_routes, collect_cyclone_dds, ros2_routes, live_endpoints,
  topic_endpoints, collect_ros2,
}

module _ {ℓ} {A : Type ℓ} where
  take-drop :
      (routes : List A) (i : ℕ) (a : A)
      → get_elem? routes i ≡ some a
      → take 1 (drop i routes) ≡ a ∷ []
  take-drop [] i a h = grind (arith, h)
  take-drop (x ∷ routes) zero a h = grind (arith, h)
  take-drop (x ∷ routes) (suc i) a h = take-drop routes i a h

  -- At a cursor inside the list, the tick samples the route there.
  budget_of-get_elem? :
      (routes : List A) (i : ℕ) (a : A)
      → get_elem? routes i ≡ some a
      → budget_of 1 routes i ≡ a ∷ []
  budget_of-get_elem? routes i a h = rw (take-drop routes i a h) refl

  lt-length : (routes : List A) (i : ℕ) (a : A) → get_elem? routes i ≡ some a → i < length routes
  lt-length [] i a h = grind (arith, h)
  lt-length (x ∷ routes) zero a h = omega arith
  lt-length (x ∷ routes) (suc i) a h = omega (arith, lt-length routes i a h)

module _ {ℓ} {A : Type ℓ} (tick : ℕ → List A × ℕ) (n : ℕ)
    (next : (c : ℕ) → (tick c).1 ≡ (c + 1) % n) where
  inside : (c : ℕ) → 0 < n → (tick c).1 < n
  inside c h = rw (next c) (mod-lt (c + 1) h)

  step : (c : ℕ) → c + 1 < n → (tick c).1 ≡ c + 1
  step c h = next c ∙ mod-eq_of_lt h

  step-last : (c : ℕ) → c + 1 ≡ n → (tick c).1 ≡ 0
  step-last c h = next c ∙ rw h (mod_self n)

  -- The cursor comes to each route after it,
  reach : (d c i : ℕ) → c + d ≡ i → i < n → sampled_at tick d c ≡ (tick i).0
  reach zero c i h k = ap (λ j. (tick j).0) (omega (arith, h))
  reach (suc d) c i h k = rw (step c (omega (arith, h, k))) (reach d (c + 1) i (omega (arith, h)) k)

  -- and then begins again.
  wrap : (d c k m : ℕ) → m ≡ d + k → c + suc d ≡ n → sampled_at tick (suc m) c ≡ sampled_at tick k 0
  wrap zero c k m e h =
      ap (sampled_at tick m) (step-last c h)
      ∙ ap (λ j. sampled_at tick j 0) {x = m} {y = k} (omega (arith, e))
  wrap (suc d) c k zero e h = grind (arith, e)
  wrap (suc d) c k (suc m) e h =
      rw (step c (omega (arith, h))) (wrap d (c + 1) k m (omega (arith, e)) (omega (arith, h)))

  from : (c i : ℕ) → c < n → i < n → (k : ℕ) × (k < n) × (sampled_at tick k c ≡ (tick i).0)
  from c i l h = elim (Bool-cases (leb c i)) [
    | inl e ↦ (i - c, omega (arith, h), reach (i - c) c i (ground (arith, e)) h)
    | inr e ↦ (
      suc (n - c - 1 + i),
      ground (arith, e),
      wrap (n - c - 1) c i _ refl (omega (arith, l)) ∙ reach i 0 i (omega arith) h,
    )
  ]

  -- From any cursor, a route has its turn in one more tick than there are routes.
  pub turn : (c i : ℕ) → i < n → (k : ℕ) × (k ≤ n) × (sampled_at tick k c ≡ (tick i).0)
  turn c i h =
      let r = from (tick c).1 i (inside c (omega (arith, h))) h in
      (suc r.0, omega (arith, r.1), r.2)

length-select : {A : Type 0} (p : A → Bool) (xs : List A) → length (select p xs) ≤ length xs
length-select p [] = omega arith
length-select p (x ∷ xs) = ground (arith, length-select p xs)

nonempty : {A : Type 0} (xs : List A) → 0 < length xs → is_empty xs ≡ false
nonempty [] h = grind (arith, h)
nonempty (x ∷ xs) h = refl

next_cursor-mod : (n c : ℕ) → 0 < n → next_cursor 1 n c ≡ (c + 1) % n
next_cursor-mod zero c h = grind (arith, h)
next_cursor-mod (suc n) c h = ground arith

module _ {R : Type 0} (endpoints : List (EndpointInfo R)) where
  -- What a tick of each collector does while there are routes.
  cyclone_dds-tick :
      (c : ℕ)
      → 0 < length (dds_routes endpoints)
      → collect_cyclone_dds endpoints c
        ≡ (budget_of 1 (dds_routes endpoints) c, (c + 1) % length (dds_routes endpoints))
  unfolding collect_cyclone_dds
  cyclone_dds-tick c h =
      rw (nonempty (dds_routes endpoints) h, next_cursor-mod (length (dds_routes endpoints)) c h)
        refl

  module _ (topics services : List Text) where
    length-live : length (live_endpoints topics services endpoints) ≤ length (ros2_routes endpoints)
    unfolding live_endpoints
    length-live = length-select _ (ros2_routes endpoints)

    length-topics :
        length (topic_endpoints topics services endpoints)
        ≤ length (live_endpoints topics services endpoints)
    unfolding topic_endpoints
    length-topics = length-select _ (live_endpoints topics services endpoints)

    ros2-tick :
        (c : ℕ)
        → 0 < length (live_endpoints topics services endpoints)
        → collect_ros2 topics services endpoints c ≡ (
          budget_of 1 (topic_endpoints topics services endpoints) c,
          (c + 1) % length (live_endpoints topics services endpoints),
        )
    unfolding collect_ros2
    ros2-tick c h =
        rw
          (
            nonempty (ros2_routes endpoints) (omega (arith, h, length-live)),
            next_cursor-mod (length (live_endpoints topics services endpoints)) c h,
          )
          refl

-- While the endpoints stay the same, each CycloneDDS route is alone sampled in one of the ticks
-- from 0 to the number of routes, whatever the cursor that they start from.
pub cyclone_dds-fair :
    {R : Type 0} (endpoints : List (EndpointInfo R)) (cursor i : ℕ) (endpoint : EndpointInfo R)
    → get_elem? (dds_routes endpoints) i ≡ some endpoint
    → (k : ℕ) × (k ≤ length (dds_routes endpoints))
      × (sampled_at (collect_cyclone_dds endpoints) k cursor ≡ endpoint ∷ [])
cyclone_dds-fair endpoints cursor i endpoint h =
    let l = lt-length (dds_routes endpoints) i endpoint h in
    let p : 0 < length (dds_routes endpoints) = omega (arith, l) in
    let r =
      turn (collect_cyclone_dds endpoints) _ (λ c. ap (λ x. x.1) (cyclone_dds-tick endpoints c p))
        cursor i l in
    (
      r.0,
      r.1,
      r.2
          ∙ (ap (λ x. x.0) (cyclone_dds-tick endpoints i p)
              ∙ budget_of-get_elem? (dds_routes endpoints) i endpoint h),
    )

-- While the endpoints and the topics and services of ROS stay the same, each live ROS2 topic is
-- alone measured in one of the ticks from 0 to the number of live endpoints, services included,
-- whatever the cursor that they start from.
pub ros2-fair :
    {R : Type 0} (topics services : List Text) (endpoints : List (EndpointInfo R)) (cursor i : ℕ)
    (endpoint : EndpointInfo R)
    → get_elem? (topic_endpoints topics services endpoints) i ≡ some endpoint
    → (k : ℕ) × (k ≤ length (live_endpoints topics services endpoints))
      × (sampled_at (collect_ros2 topics services endpoints) k cursor ≡ endpoint ∷ [])
ros2-fair topics services endpoints cursor i endpoint h =
    let l = lt-length (topic_endpoints topics services endpoints) i endpoint h in
    let m : i < length (live_endpoints topics services endpoints) =
      omega (arith, l, length-topics endpoints topics services) in
    let p : 0 < length (live_endpoints topics services endpoints) = omega (arith, m) in
    let r =
      turn (collect_ros2 topics services endpoints) _
        (λ c. ap (λ x. x.1) (ros2-tick endpoints topics services c p)) cursor i m in
    (
      r.0,
      r.1,
      r.2
          ∙ (ap (λ x. x.0) (ros2-tick endpoints topics services i p)
              ∙ budget_of-get_elem? (topic_endpoints topics services endpoints) i endpoint h),
    )
