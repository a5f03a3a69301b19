-- ===== src/Addresses.antt =====
-- The virtual addresses of files and logs: getFreePtr of fuse-3.0.2/example/helper.c, and the stores
-- into `map` by its callers.
pub mod Alloc
use cycology.Base.{ℕ, ◌==◌, if◌then◌else◌, abs32}
use cycology.Disk.{AddrMap}

-- returns the address and the map that is left
unfoldable pub get_free_ptr : AddrMap → ℕ × AddrMap
get_free_ptr m = (m.free_ptr, record m { free_ptr = abs32 (m.map m.free_ptr) })

-- `map->map[id] = addr`
unfoldable pub set_address : AddrMap → ℕ → ℕ → AddrMap
set_address m id addr = record m { map = λ i. if i == id then addr else m.map i }
