-- ===== src/References/Messages.antt =====
-- src/connection.rs, `UdhReferencePool::bucket_ids`: the messages to one destination share a bucket, so that the
-- references of those under way tell them apart.
use cmppprotocol.Prelude.{
  ℕ, ◌≡◌, ◌≢◌, ap, ◌∙◌, List, [], ◌∷◌, ◌++◌, map, some, true, arith, ==_refl,
}
use cmppprotocol.Sequence.Registry.{contains}
use cmppprotocol.References.{
  UdhReferenceLease, sort, dedup, normalize_udh_address, bucket_id, bucket_ids,
}
use cmppprotocol.References.Acquire.{contains-ids}
use cmppprotocol.References.Leases.{
  Shared, Steps, new_shared, new_shared-SharedInv, Steps-SharedInv,
}

contains-map :
    (f : List ℕ → ℕ) (xs ys : List (List ℕ)) (d : List ℕ)
    → contains (map f (xs ++ (d ∷ ys))) (f d) ≡ true
unfolding contains
contains-map f [] ys d = ground (arith, ==_refl (f d))
contains-map f (x ∷ xs) ys d = ground (arith, contains-map f xs ys d)

contains-bucket_ids :
    (hash : List ℕ → List ℕ → ℕ) (src_id d : List ℕ) (xs ys : List (List ℕ))
    → contains
        (bucket_ids hash src_id (xs ++ (d ∷ ys)))
        (bucket_id hash (normalize_udh_address src_id) (normalize_udh_address d))
      ≡ true
unfolding bucket_ids
contains-bucket_ids hash src_id d xs ys = by_first xs
  where
    id : List ℕ → ℕ
    id d = bucket_id hash (normalize_udh_address src_id) (normalize_udh_address d)

    by_first :
        (xs : List (List ℕ)) → contains (bucket_ids hash src_id (xs ++ (d ∷ ys))) (id d) ≡ true
    by_first [] = contains-ids (map id (d ∷ ys)) (id d) ∙ contains-map id [] ys d
    by_first (x ∷ xs) =
        contains-ids (map id (x ∷ (xs ++ (d ∷ ys)))) (id d) ∙ contains-map id (x ∷ xs) ys d

-- The lease is for the buckets of a message.
abbrev pub LeasedFor : (List ℕ → List ℕ → ℕ) → List ℕ → List (List ℕ) → UdhReferenceLease → Type 0
LeasedFor hash src_id destinations l =
    l.bucket_ids ≡ dedup (sort (bucket_ids hash src_id destinations))

-- In any course of the pool from its start on, whatever the hash is: two leases that live at the
-- same time, for messages of one source that have a destination in common, have different
-- references.
pub messages_apart :
    (last : ℕ) (s : Shared) (hash : List ℕ → List ℕ → ℕ) (src_id d : List ℕ)
    (xs ys vs ws : List (List ℕ)) (i j : ℕ) (l m : UdhReferenceLease)
    → Steps last new_shared s
    → i ≢ j
    → s.leases i ≡ some l
    → s.leases j ≡ some m
    → LeasedFor hash src_id (xs ++ (d ∷ ys)) l
    → LeasedFor hash src_id (vs ++ (d ∷ ws)) m
    → l.reference ≢ m.reference
messages_apart last s hash src_id d xs ys vs ws i j l m steps n h g mine theirs =
    (Steps-SharedInv last new_shared s steps new_shared-SharedInv).apart i j l m n h g shared
      (within xs ys l mine) (within vs ws m theirs)
  where
    shared : ℕ
    shared = bucket_id hash (normalize_udh_address src_id) (normalize_udh_address d)

    within :
        (xs ys : List (List ℕ)) (k : UdhReferenceLease)
        → LeasedFor hash src_id (xs ++ (d ∷ ys)) k
        → contains k.bucket_ids shared ≡ true
    within xs ys k e =
        ap (λ (ids : List ℕ). contains ids shared) e
        ∙ contains-ids (bucket_ids hash src_id (xs ++ (d ∷ ys))) shared
        ∙ contains-bucket_ids hash src_id d xs ys
