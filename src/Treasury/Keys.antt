-- ===== src/Treasury/Keys.antt =====
-- The keys of the table TreasuryBucket: the identifier, and the reference within a business.
use accountos.Prelude.{◌≡◌, ◌≢◌, String, arith, eq_iff, eq_refl, List, [], none, some, ◌∷◌}
use accountos.World.{TreasuryBucket}
use accountos.Treasury.Buckets.{find_bucket, find_bucket_by_id}

-- No identifier comes twice: the primary key.
abbrev pub IdsDiffer : List TreasuryBucket → Type 0
IdsDiffer [] = Unit
IdsDiffer (b ∷ bs) = (find_bucket_by_id b.id bs ≡ none) × IdsDiffer bs

pub find_bucket-ref :
    (r k : String) (bs : List TreasuryBucket) (b : TreasuryBucket)
    → find_bucket r k bs ≡ some b
    → (b.bucket_ref ≡ r) × (b.business_id ≡ k)
unfolding find_bucket
find_bucket-ref r k [] b h = cc
find_bucket-ref r k (c ∷ bs) b h =
    ground (arith, eq_iff c.bucket_ref r, eq_iff c.business_id k, find_bucket-ref r k bs b)

find_bucket_by_id-found :
    (r k : String) (bs : List TreasuryBucket) (b : TreasuryBucket)
    → find_bucket r k bs ≡ some b
    → find_bucket_by_id b.id bs ≢ none
unfolding find_bucket find_bucket_by_id
find_bucket_by_id-found r k [] b h = cc
find_bucket_by_id-found r k (c ∷ bs) b h =
    ground (arith, eq_refl c.id, find_bucket_by_id-found r k bs b)

-- Buckets that are found under two references of a business are two rows.
pub find_bucket-ne :
    (r r' k : String) (bs : List TreasuryBucket) (b b' : TreasuryBucket)
    → IdsDiffer bs
    → find_bucket r k bs ≡ some b
    → find_bucket r' k bs ≡ some b'
    → r ≢ r'
    → b.id ≢ b'.id
unfolding find_bucket
find_bucket-ne r r' k [] b b' u h h' d = cc
find_bucket-ne r r' k (c ∷ bs) b b' u h h' d = ground (
  arith,
  eq_iff c.bucket_ref r,
  eq_iff c.bucket_ref r',
  find_bucket-ne r r' k bs b b' u.1,
  find_bucket_by_id-found r k bs b,
  find_bucket_by_id-found r' k bs b',
)
