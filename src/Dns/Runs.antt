-- ===== src/Dns/Runs.antt =====
-- The callback of a request finds the object that made it.
use xmrig_nonces_heatmap.Prelude.{
  ℕ, ◌+◌, ◌<◌, ◌≡◌, refl, subst, inl, inr, ℤ, is_negative, List, [], ◌∷◌, ◌++◌, none, some, eq_nat,
  arith, Bool-cases, Option-cases,
}
use xmrig_nonces_heatmap.Dict
use xmrig_nonces_heatmap.Dict.{find, find-assign, find-erase, find-assign_cases, find-erase_cases}
use xmrig_nonces_heatmap.Storage
use xmrig_nonces_heatmap.Storage.{Storage, storage}
use xmrig_nonces_heatmap.Storage.Keys.{
  IsBelow, storage-IsBelow, get_next, get-add, get-release, add-IsBelow, release-IsBelow,
}
use xmrig_nonces_heatmap.String.{String, is_equal}
use xmrig_nonces_heatmap.Dns.Records.{on_resolved-records}
use xmrig_nonces_heatmap.Dns.{
  Uv, Dns, clear, resolve, AddrInfo, on_resolved, Told, World, world, create, destroy, resolved_at,
  on_resolved_callback,
}

module _ (uv : Uv) where
  -- a call of `resolve` on the object at `at`
  pub resolved : (at : ℕ) → String → ℤ → Dns → World uv → World uv
  resolved at host rc dns w = record w {
    objects = Dict.assign at (resolve host rc dns).1 w.objects;
  }

  -- what the program and libuv do. A new object and its request stand where nothing lives.
  pub data Reach : World uv → Type 0 where
    started : Reach (world uv)
    created :
        {w : World uv}
        → Reach w
        → (listener at req : ℕ) → find at w.objects ≡ none
        → find req w.resolvers ≡ none
        → w.m_storage.m_counter + 1 < 18446744073709551616
        → Reach (create uv listener at req w)
    destroyed :
        {w : World uv}
        → Reach w
        → (at : ℕ) (dns : Dns) → find at w.objects ≡ some dns
        → Reach (destroy uv at dns w)
    asked :
        {w : World uv}
        → Reach w
        → (at : ℕ) (host : String) (rc : ℤ) (dns : Dns) → find at w.objects ≡ some dns
        → Reach (resolved at host rc dns w)
    answered :
        {w w' : World uv}
        → Reach w
        → (req : ℕ) (status : ℤ) (res : List (AddrInfo uv))
        → on_resolved_callback uv req status res w ≡ some w'
        → Reach w'

  -- an object that is alive is found by its key and by its request
  pub record IsKnown (at : ℕ) (dns : Dns) (w : World uv) : Type 0 where
    pub by_key : Storage.get dns.m_key w.m_storage ≡ some at
    pub by_request : find dns.m_resolver w.resolvers ≡ some dns.m_key

  pub record IsValid (w : World uv) : Type 0 where
    pub below : IsBelow w.m_storage
    pub known : (at : ℕ) (dns : Dns) → find at w.objects ≡ some dns → IsKnown at dns w

  world-IsValid : IsValid (world uv)
  unfolding world find
  world-IsValid = record { below = storage-IsBelow; known = λ at dns h. absurd (ground arith) }

  -- an object that keeps its key and its request
  update-IsValid :
      (w : World uv) (at : ℕ) (dns dns' : Dns) (calls : List (Told uv))
      → IsValid w
      → find at w.objects ≡ some dns
      → dns'.m_key ≡ dns.m_key
      → dns'.m_resolver ≡ dns.m_resolver
      → IsValid (record w { objects = Dict.assign at dns' w.objects; told = calls })
  update-IsValid w at dns dns' calls v h same_key same_request = record {
    below = v.below;
    known = λ other d found. elim (find-assign_cases at other dns' d w.objects found) [
      | inl (same, kept) ↦ let k = v.known at dns h in record { by_key = cc; by_request = cc }
      | inr (differ, there) ↦
          let k = v.known other d there in record { by_key = k.by_key; by_request = k.by_request }
    ];
  }

  create-IsValid :
      (w : World uv) (listener at req : ℕ)
      → IsValid w
      → find at w.objects ≡ none
      → find req w.resolvers ≡ none
      → w.m_storage.m_counter + 1 < 18446744073709551616
      → IsValid (create uv listener at req w)
  unfolding create
  create-IsValid w listener at req v no_object no_request small = record {
    below = add-IsBelow at w.m_storage v.below small;
    known = λ other d found. elim (find-assign_cases at other _ d w.objects found) [
      | inl (same, kept) ↦ record {
        by_key = rw (← kept, ← same) (ground (arith, get-add at w.m_storage.m_counter w.m_storage));
        by_request =
            rw (← kept) (ground (arith, find-assign req req w.m_storage.m_counter w.resolvers));
      }
      | inr (differ, there) ↦
          let k = v.known other d there in
          record {
            by_key =
                ground
                  (arith, get-add at d.m_key w.m_storage, get_next w.m_storage v.below, k.by_key);
            by_request = ground (
              arith,
              find-assign req d.m_resolver w.m_storage.m_counter w.resolvers,
              k.by_request,
            );
          }
    ];
  }

  destroy-IsValid :
      (w : World uv) (at : ℕ) (dns : Dns)
      → IsValid w
      → find at w.objects ≡ some dns
      → IsValid (destroy uv at dns w)
  unfolding destroy
  destroy-IsValid w at dns v h = record {
    below = release-IsBelow dns.m_key w.m_storage v.below;
    known = λ other d found.
        let (differ, there) = find-erase_cases at other d w.objects found in
        let k = v.known other d there in
        let own = v.known at dns h in
        record {
          by_key = ground (arith, get-release dns.m_key d.m_key w.m_storage, k.by_key, own.by_key);
          by_request = ground (
            arith,
            find-erase dns.m_resolver d.m_resolver w.resolvers,
            k.by_request,
            own.by_request,
            k.by_key,
            own.by_key,
          );
        };
  }

  -- the object at `at` is now `dns'`, and its listener was called
  pub after : (at : ℕ) → Dns → World uv → World uv
  after at dns' w = record w {
    objects = Dict.assign at dns' w.objects;
    told = w.told ++ record { listener = dns'.m_listener; dns = dns'; status = dns'.m_status } ∷ [];
  }

  resolved_at_lem :
      (w : World uv) (at : ℕ) (dns : Dns) (status : ℤ) (res : List (AddrInfo uv))
      → find at w.objects ≡ some dns
      → resolved_at uv at status res w ≡ some (after at (on_resolved uv status res dns) w)
  unfolding resolved_at after
  resolved_at_lem w at dns status res h = rw (h, resolved_at) refl

  callback_lem :
      (w : World uv) (at : ℕ) (dns : Dns) (status : ℤ) (res : List (AddrInfo uv))
      → IsKnown at dns w
      → find at w.objects ≡ some dns
      → on_resolved_callback uv dns.m_resolver status res w
        ≡ some (after at (on_resolved uv status res dns) w)
  unfolding on_resolved_callback
  callback_lem w at dns status res k h =
      rw (k.by_request, on_resolved_callback, k.by_key) (resolved_at_lem w at dns status res h)

  on_resolved-same :
      (status : ℤ) (res : List (AddrInfo uv)) (dns : Dns)
      → ((on_resolved uv status res dns).m_key ≡ dns.m_key)
        × ((on_resolved uv status res dns).m_resolver ≡ dns.m_resolver)
        × ((on_resolved uv status res dns).m_listener ≡ dns.m_listener)
  unfolding on_resolved
  on_resolved-same status res dns = elim (Bool-cases (is_negative status)) [
    | inl e ↦ rw e (refl, refl, refl)
    | inr e ↦ rw (on_resolved-records uv status res dns e) (refl, refl, refl)
  ]

  resolved_at-IsValid :
      (w w' : World uv) (at : ℕ) (status : ℤ) (res : List (AddrInfo uv))
      → IsValid w
      → resolved_at uv at status res w ≡ some w'
      → IsValid w'
  unfolding resolved_at after
  resolved_at-IsValid w w' at status res v h = elim (Option-cases (find at w.objects)) [
    | inl e ↦ absurd (cc)
    | inr (dns, e) ↦
        let same = on_resolved-same status res dns in
        let done : after at (on_resolved uv status res dns) w ≡ w' =
          ground (arith, resolved_at_lem w at dns status res e) in
        subst IsValid done
          (update-IsValid w at dns (on_resolved uv status res dns) _ v e same.0 same.1)
  ]

  callback-IsValid :
      (w w' : World uv) (req : ℕ) (status : ℤ) (res : List (AddrInfo uv))
      → IsValid w
      → on_resolved_callback uv req status res w ≡ some w'
      → IsValid w'
  unfolding on_resolved_callback
  callback-IsValid w w' req status res v h = elim (Option-cases (find req w.resolvers)) [
    | inl e ↦ absurd (ground (arith, e))
    | inr (key, e) ↦ elim (Option-cases (Storage.get key w.m_storage)) [
      | inl gone ↦ subst IsValid (ground (arith, e, gone)) v
      | inr (at, there) ↦
          resolved_at-IsValid w w' at status res v (rw (e, there, on_resolved_callback) at h)
    ]
  ]

  resolve-same :
      (host : String) (rc : ℤ) (dns : Dns)
      → ((resolve host rc dns).1.m_key ≡ dns.m_key)
        × ((resolve host rc dns).1.m_resolver ≡ dns.m_resolver)
  unfolding resolve
  resolve-same host rc dns = elim (Bool-cases (is_equal dns.m_host host)) [
    | inl e ↦ rw (e, resolve) (refl, refl)
    | inr e ↦ rw (e, resolve) (unfold clear in (refl, refl))
  ]

  Reach-IsValid : {w : World uv} → Reach w → IsValid w
  unfolding resolved
  Reach-IsValid started = world-IsValid
  Reach-IsValid (created {w} r listener at req no_object no_request small) =
      create-IsValid w listener at req (Reach-IsValid r) no_object no_request small
  Reach-IsValid (destroyed {w} r at dns h) = destroy-IsValid w at dns (Reach-IsValid r) h
  Reach-IsValid (asked {w} r at host rc dns h) =
      update-IsValid w at dns (resolve host rc dns).1 w.told (Reach-IsValid r) h
        (resolve-same host rc dns).0 (resolve-same host rc dns).1
  Reach-IsValid (answered {w} {w'} r req status res h) =
      callback-IsValid w w' req status res (Reach-IsValid r) h

  -- Whatever objects were created, destroyed, and asked for names before: the callback of the
  -- request of an object that is alive changes that object as its `onResolved` does, calls its
  -- listener once with the object and its status, and changes nothing else. The callback of a
  -- request whose object was destroyed reads the request, which the destructor has freed.
  pub callback_outcome :
      (w : World uv) (at : ℕ) (dns : Dns) (status : ℤ) (res : List (AddrInfo uv))
      → Reach w
      → find at w.objects ≡ some dns
      → (on_resolved_callback uv dns.m_resolver status res w
          ≡ some (after at (on_resolved uv status res dns) w))
        × ((on_resolved uv status res dns).m_listener ≡ dns.m_listener)
        × (on_resolved_callback uv dns.m_resolver status res (destroy uv at dns w) ≡ none)
  unfolding on_resolved_callback destroy
  callback_outcome w at dns status res r h = (
    callback_lem w at dns status res ((Reach-IsValid r).known at dns h) h,
    (on_resolved-same status res dns).2,
    ground (arith, find-erase dns.m_resolver dns.m_resolver w.resolvers),
  )
