-- ===== src/Vector.antt =====
-- vector/vector.c: a growable array of pointers. `V` is the type of `void *` values and `E` that of
-- what a run of a destructor leaves behind; destructor runs are recorded in order in `events`, since
-- the objects behind the pointers are outside the module.
-- The parts: `Capacity` (growth), `Access` (at, set, get, push, pop), `Resize` (resize, reserve,
-- clear, destroy), `Edit` (insert, erase). `this` is never NULL here; see `Resize` for the two
-- functions that test it.
pub mod Capacity
pub mod Defs
pub mod Cells
pub mod Shift
pub mod Refine
pub mod Push
pub mod Edit
pub mod Resize
pub mod Access
pub mod Pointers
mod Examples
unfoldable pub use Defs.*
