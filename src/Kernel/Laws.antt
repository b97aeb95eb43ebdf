-- ===== src/Kernel/Laws.antt =====
-- What image daemon/opd_kernel.c finds after a reading of /proc/modules, as a search of plain images.
use mathlib.Core.Option
use oprofile.Base.{
  ℕ, ◌≤◌, ◌<◌, ◌≡◌, false, Option, some, none, List, [], ◌∷◌, ◌++◌, map, if◌then◌else◌, arith,
}
use oprofile.Kernel.{
  KernelImage, Kernel, vmlinux_image, xen_image, ModuleLine, module_end, scan_line, contains,
  find_module, or_xen, find_kernel_image,
}

abbrev pub AllBelow : ℕ → List ℕ → Type 0
AllBelow n [] = Unit
AllBelow n (p ∷ ps) = (p < n) × AllBelow n ps

-- Fixed images stand below the address to allocate at, and so do the modules.
pub record IsAllocated (k : Kernel) : Type 0 where
  pub fixed : 2 ≤ k.next
  pub below : AllBelow k.next k.modules

-- The first image of a list that contains the address.
pub find_image : ℕ → List KernelImage → Option KernelImage
find_image pc [] = none
find_image pc (image ∷ images) =
    let rest = find_image pc images in if contains image pc then some image else rest

abbrev pub module_image : Option ModuleLine → List KernelImage
module_image none = []
module_image (some m) =
    record { name = m.module_name; start = m.start_address; end = module_end m } ∷ []

module _ (k : Kernel) (pc : ℕ) where
  find_module-find_image :
      (ps : List ℕ)
      → Option.map k.image_at (or_xen k pc (find_module k pc ps))
        ≡ find_image pc (map k.image_at ps ++ (k.image_at xen_image ∷ []))
  unfolding find_module find_image
  find_module-find_image [] = ground arith
  find_module-find_image (p ∷ ps) = ground (arith, find_module-find_image ps)

  pub find_kernel_image-find_image :
      Option.map k.image_at (find_kernel_image false k pc)
      ≡ find_image pc
          (k.image_at vmlinux_image ∷ (map k.image_at k.modules ++ (k.image_at xen_image ∷ [])))
  unfolding find_kernel_image find_image
  find_kernel_image-find_image = ground (arith, find_module-find_image k.modules)

module _ (sscanf_module : List ℕ → Option ModuleLine) where
  -- The images of the lines of /proc/modules, the last line's first.
  pub listed : List (List ℕ) → List KernelImage
  listed [] = []
  listed (line ∷ lines) = listed lines ++ module_image (scan_line sscanf_module line)

-- The images behind a reading, from those before it.
record Read (k k' : Kernel) (found : List KernelImage) : Type 0 where
  allocated : IsAllocated k'
  modules_read : map k'.image_at k'.modules ≡ found ++ map k.image_at k.modules
  fixed_images : (p : ℕ) → p < 2 → k'.image_at p ≡ k.image_at p
