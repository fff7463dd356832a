-- ===== src/Gpu.antt =====
-- The allocator of a node's GPUs (internal/runtime/gpu_alloc.go). An int is a natural number here,
-- for the indices and the counts are none below zero.
pub mod Loop
pub mod Claims
use Prim.Native.String.{◌++◌}
use helion_v.Prelude.{
  ℕ, zero, suc, ◌+◌, ◌-◌, ◌%◌, ◌^◌, String, Bool, true, false, not, Option, none, some, List, [],
  ◌∷◌, Assoc, insert, length, select, ltb, ◌==◌, str_eq, if◌then◌else◌,
}

-- The map from device indices to the jobs that own them. A key that is not there is put in front.
pub record GpuAllocator : Type 0 where
  pub total : ℕ  -- uint32
  pub busy : List (ℕ × String)

-- NewGPUAllocator
unfoldable pub new_gpu_allocator : ℕ → GpuAllocator
new_gpu_allocator total = record { total = total; busy = [] }

-- busy[idx], with the second result.
unfoldable pub owner : ℕ → List (ℕ × String) → Option String
owner idx [] = none
owner idx ((k, job) ∷ rest) = let later = owner idx rest in if k == idx then some job else later

unfoldable pub claimed : ℕ → List (ℕ × String) → Bool
unfolding owner
claimed idx busy = elim (owner idx busy) [ none ↦ false | some job ↦ true ]

-- The loop from `idx` on: `left` is total - idx, `need` is n - len(picked). It returns the map and
-- the indices that it picks.
unfoldable pub pick_free :
    (job_id : String) (left idx need : ℕ) → List (ℕ × String) → List (ℕ × String) × List ℕ
unfolding claimed
pick_free job_id zero idx need busy = (busy, [])
pick_free job_id (suc left) idx need busy = elim (need == 0) [
  | true ↦ (busy, [])
  | false ↦ elim (claimed idx busy) [
    | true ↦ pick_free job_id left (idx + 1) need busy
    | false ↦
        (let (busy', picked) = pick_free job_id left (idx + 1) (need - 1) ((idx, job_id) ∷ busy) in
          (busy', idx ∷ picked))
  ]
]

pub data Allocation : Type 0 where
  insufficient : Allocation
  picked : List ℕ → Allocation

-- Allocate. The test adds two uint32.
unfoldable pub allocate : (job_id : String) (n : ℕ) → GpuAllocator → GpuAllocator × Allocation
unfolding pick_free
allocate job_id n a =
    if n == 0
    then (a, picked [])
    else if ltb a.total ((length a.busy % 2 ^ 32 + n) % 2 ^ 32)
    then (a, insufficient)
    else (let (busy, indices) = pick_free job_id a.total 0 n a.busy in
        (record a { busy = busy }, picked indices))

-- Release
unfoldable pub release : String → GpuAllocator → GpuAllocator
release job_id a = record a { busy = select (λ entry. not (str_eq entry.1 job_id)) a.busy }

-- InUse
unfoldable pub in_use : GpuAllocator → ℕ
in_use a = length a.busy

-- Capacity
unfoldable pub capacity : GpuAllocator → ℕ
capacity a = a.total

-- withCudaVisibleDevices
unfoldable pub with_cuda_visible_devices : Assoc String → String → Assoc String
unfolding insert
with_cuda_visible_devices base value = insert "CUDA_VISIBLE_DEVICES" value base
