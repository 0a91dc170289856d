-- ===== src/Util/BufferPool.antt =====
-- crates/pulsate-util/src/pool.rs: `BufferPool`. A buffer is its capacity and its bytes; `grow` is the
-- capacity that the bytes crate gives a new buffer for the one that is asked for.
use pulsate.Prelude.{
  ℕ, ◌≤◌, ◌≡◌, inl, inr, refl, ◌&&◌, List, [], ◌∷◌, length, leb, ltb, if◌then◌else◌, All, arith,
  Bool-cases,
}

pub record BytesMut : Type 0 where
  pub capacity : ℕ
  pub content : List ℕ

-- The free list stands with its top first.
pub record BufferPool : Type 0 where
  pub free : List BytesMut
  pub buf_capacity : ℕ
  pub max_retained : ℕ

abbrev pub new_pool : ℕ → ℕ → BufferPool
new_pool buf_capacity max_retained = record {
  free = [];
  buf_capacity = buf_capacity;
  max_retained = max_retained;
}

module _ (grow : ℕ → ℕ) where
  -- `take`, at the free list.
  abbrev pub take_from : BufferPool → List BytesMut → BytesMut × BufferPool
  take_from pool [] = (record { capacity = grow pool.buf_capacity; content = [] }, pool)
  take_from pool (b ∷ bs) = (record b { content = [] }, record pool { free = bs })

  unfoldable pub take_buffer : BufferPool → BytesMut × BufferPool
  take_buffer pool = take_from pool pool.free

unfoldable pub give : BytesMut → BufferPool → BufferPool
give b pool =
    if ltb (length pool.free) pool.max_retained && leb b.capacity pool.buf_capacity
    then record pool { free = b ∷ pool.free }
    else pool

abbrev pub retained : BufferPool → ℕ
retained pool = length pool.free

-- No more buffers than the pool may keep, and none larger than its buffers are.
pub record IsBounded (pool : BufferPool) : Type 0 where
  pub few : length pool.free ≤ pool.max_retained
  pub small : All (λ b. b.capacity ≤ pool.buf_capacity) pool.free

pub data PoolOp : Type 0 where
  takes : PoolOp
  gives : BytesMut → PoolOp

unfoldable pub run_pool : (ℕ → ℕ) → List PoolOp → BufferPool → BufferPool
run_pool grow [] pool = pool
run_pool grow (takes ∷ ops) pool = run_pool grow ops (take_buffer grow pool).1
run_pool grow (gives b ∷ ops) pool = run_pool grow ops (give b pool)

take_buffer-IsBounded :
    (grow : ℕ → ℕ) (pool : BufferPool) → IsBounded pool → IsBounded (take_buffer grow pool).1
unfolding take_buffer
take_buffer-IsBounded grow pool v = by_free pool.free refl
  where
    by_free : (bs : List BytesMut) → pool.free ≡ bs → IsBounded (take_from grow pool bs).1
    by_free [] e = v
    by_free (b ∷ bs) e =
        let small : All (λ x. x.capacity ≤ pool.buf_capacity) (b ∷ bs) = rw e at v.small in
        let few : length (b ∷ bs) ≤ pool.max_retained = rw e at v.few in
        record { few = omega arith; small = small.1 }

give-IsBounded : (b : BytesMut) (pool : BufferPool) → IsBounded pool → IsBounded (give b pool)
unfolding give
give-IsBounded b pool v =
    elim (Bool-cases
      (ltb (length pool.free) pool.max_retained && leb b.capacity pool.buf_capacity)) [
        | inl kept ↦ rw kept (record { few = ground arith; small = (ground arith, v.small) })
        | inr dropped ↦ rw dropped v
      ]

run_from-IsBounded :
    (grow : ℕ → ℕ) (ops : List PoolOp) (pool : BufferPool)
    → IsBounded pool
    → IsBounded (run_pool grow ops pool)
unfolding run_pool
run_from-IsBounded grow [] pool v = v
run_from-IsBounded grow (takes ∷ ops) pool v =
    run_from-IsBounded grow ops (take_buffer grow pool).1 (take_buffer-IsBounded grow pool v)
run_from-IsBounded grow (gives b ∷ ops) pool v =
    run_from-IsBounded grow ops (give b pool) (give-IsBounded b pool v)

-- Whatever is taken from a pool and given to it, it keeps no more buffers than its limit and none
-- of a larger capacity than its buffers have.
pub run_pool-IsBounded :
    (grow : ℕ → ℕ) (ops : List PoolOp) (buf_capacity max_retained : ℕ)
    → IsBounded (run_pool grow ops (new_pool buf_capacity max_retained))
run_pool-IsBounded grow ops buf_capacity max_retained =
    run_from-IsBounded grow ops (new_pool buf_capacity max_retained)
      (record { few = omega arith; small = tt })
