-- ===== src/Memory/Tests.antt =====
-- The theorems about the page allocator of kernel/kalloc.c at concrete states.
use os_212_assignment.Base.{◌-◌, ◌/◌, ◌≡◌, refl, [], ◌∷◌, arith}
use os_212_assignment.Proc.{Selection}
use os_212_assignment.Kernel.{Kernel, pgsize, phystop, ok}
use os_212_assignment.Sample.{kernel}
use os_212_assignment.Memory.{pgroundup, kinit}
use os_212_assignment.Memory.FreeList.{IsPage, nil, cons, Frees, freed, kinit-freed}

abbrev k : Kernel
k = kernel Selection.lapa

abbrev empty : Kernel
empty = record k { freelist = 0 }

free_page : IsPage 0x1000 0x5000
free_page = omega arith

k-Frees : Frees k (0x5000 ∷ [])
k-Frees = cons free_page refl nil

kinit-freed_example :
    (k' : Kernel) × (kinit empty ≡ ok tt k')
    × Frees k' (freed ((phystop - pgroundup 0x1000) / pgsize) (pgroundup 0x1000) [])
kinit-freed_example = kinit-freed empty refl (omega arith) (omega arith)
