-- ===== src/Lowlevel/Alloc/Overlap.antt =====
-- Which objects in the memory of src/lowlevel.rs a write leaves as they are.
use avfork.Base.{ℕ, ◌+◌, ◌≤◌, ◌<◌, ◌≡◌, refl, Option, none, some, arith, ◌==◌, false}
use avfork.Lowlevel.Alloc.{Stored, Memory, spared, write_obj}

spared-above :
    {V : Type 0} (type_size addr i : ℕ) (o : Option (Stored V))
    → addr + type_size ≤ i
    → spared type_size addr i o ≡ o
spared-above type_size addr i none h = refl
spared-above type_size addr i (some o) h = ground arith

-- What begins behind the bytes that are written.
pub write_obj-above :
    {V : Type 0} (type_size addr i : ℕ) (obj : V) (mem : Memory V)
    → 0 < type_size
    → addr + type_size ≤ i
    → write_obj type_size addr obj mem i ≡ mem i
unfolding write_obj
write_obj-above type_size addr i obj mem p h =
    let same = spared-above type_size addr i (mem i) h in
    let filled : (type_size == 0) ≡ false = ground arith in
    let apart : (i == addr) ≡ false = ground arith in rw (write_obj, filled, apart) same

-- What ends in front of them.
pub write_obj-below :
    {V : Type 0} (type_size addr i : ℕ) (obj : V) (mem : Memory V) (o : Stored V)
    → 0 < o.bytes
    → mem i ≡ some o
    → i + o.bytes ≤ addr
    → write_obj type_size addr obj mem i ≡ some o
unfolding write_obj
write_obj-below type_size addr i obj mem o p e h = rw (write_obj, e) (ground arith)

pub write_obj-found :
    {V : Type 0} (type_size addr : ℕ) (obj : V) (mem : Memory V)
    → 0 < type_size
    → write_obj type_size addr obj mem addr ≡ some (record { bytes = type_size; value = obj })
unfolding write_obj
write_obj-found type_size addr obj mem p = ground arith
