-- ===== src/Examples/Caches.antt =====
-- Slab caches: objects of 256 bytes, and a cache with one full slab of 64-byte objects.
use liqui_dos.Common.{ℕ, ◌+◌, ◌*◌, ◌<◌, ◌≡◌, ◌⊎◌, refl, arith, none, some, [], ◌∷◌, false}
use liqui_dos.Slab.{Cache, Slab, slab_max_size, init_cache, get_cache, alloc_in, pick_slab}
use liqui_dos.Slab.Layout.{IsLaidOut, init_cache-IsLaidOut}
use liqui_dos.Slab.Lookup.{IsBestAt, NoFit, get_cache-Searched}
use liqui_dos.Slab.Object.{IsSlab}
use liqui_dos.Slab.Alloc.{IsCache, alloc_in-IsCache}

abbrev empty : Cache
empty = record {
  list_free = [];
  list_partial = [];
  list_full = [];
  is_ubxela = false;
  order = 0;
  slab_size = 64;
  slab_objects = 59;
  colour_next = 0;
  colour_num = 0;
}

-- Both objects are in use.
abbrev pair : Slab
pair = record {
  addr = 0xC0001000;
  objects = 0xC0001024;
  free = 2;
  colour_offset = 0;
  inuse = 2;
  bufctl = λ i. i + 1;
}

abbrev pairs : Cache
pairs = record empty { list_full = pair ∷ []; slab_objects = 2 }

init_cache-IsLaidOut_example : IsLaidOut 256 (init_cache 256)
init_cache-IsLaidOut_example = init_cache-IsLaidOut 256 (omega arith)

get_cache-Searched_example :
    ((get_cache 60 (pairs ∷ empty ∷ []) ≡ none) × NoFit 60 slab_max_size (pairs ∷ empty ∷ []))
    ⊎ ((i : ℕ) × (c : Cache) × (get_cache 60 (pairs ∷ empty ∷ []) ≡ some i)
        × IsBestAt 60 slab_max_size (pairs ∷ empty ∷ []) i c)
get_cache-Searched_example = get_cache-Searched 60 (pairs ∷ empty ∷ [])

pair-IsSlab : IsSlab 2 64 pair []
pair-IsSlab = record {
  linked = refl;
  distinct = λ x. omega arith;
  counted = refl;
  fits = omega arith;
  sized = omega arith;
}

empty-IsCache : IsCache empty
empty-IsCache = record {
  some_object = omega arith;
  sized = omega arith;
  free = tt;
  partial = tt;
  full = tt;
}

alloc_in-IsCache_example :
    IsCache (alloc_in empty 0xC0001000).1
    × ((x : ℕ) × (x < 59)
        × ((alloc_in empty 0xC0001000).0 ≡ (pick_slab empty 0xC0001000).0.objects + x * 64))
alloc_in-IsCache_example = alloc_in-IsCache empty 0xC0001000 empty-IsCache (omega arith)
