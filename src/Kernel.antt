-- ===== src/Kernel.antt =====
-- The images of the kernel and of its modules (daemon/opd_kernel.c, daemon/opd_kernel.h).
mod Laws
mod Tests
use oprofile.Base.{
  ℕ, ◌+◌, ◌-◌, ◌%◌, ◌^◌, Bool, true, false, ◌&&◌, ◌||◌, Option, some, none, List, [], ◌∷◌, ltb, leb,
  ◌==◌, if◌then◌else◌, u32, u64,
}

-- `struct kernel_image`
pub record KernelImage : Type 0 where
  pub name : List ℕ
  pub start : ℕ
  pub end : ℕ

-- The images by their addresses, of which `vmlinux_image` and `xen_image` are fixed; the list of
-- modules; and the next address to allocate at.
pub record Kernel : Type 0 where
  pub image_at : ℕ → KernelImage
  pub modules : List ℕ
  pub next : ℕ

abbrev pub vmlinux_image : ℕ
vmlinux_image = 0

abbrev pub xen_image : ℕ
xen_image = 1

abbrev pub set_image : ℕ → KernelImage → Kernel → Kernel
set_image p image k = record k { image_at = λ q. if q == p then image else k.image_at q }

-- A field keeps its value when `sscanf` does not convert it.
abbrev pub converted : ℕ → Option ℕ → ℕ
converted old none = old
converted old (some value) = value

-- The image with its range, unless both ends are 0.
abbrev pub with_range : KernelImage → Option ℕ × Option ℕ → Option KernelImage
with_range image (start, end) =
    let start' = converted image.start start in
    let end' = converted image.end end in
    if (start' == 0) && (end' == 0)
    then none
    else some (record image { start = start'; end = end' })

abbrev pub place_image : ℕ → Kernel → Option KernelImage → Option Kernel
place_image p k none = none
place_image p k (some image) = some (set_image p image k)

-- `sscanf` of a range, "%llx,%llx"; the result is `none` for an exit.
module _ (sscanf_range : List ℕ → Option ℕ × Option ℕ) where
  create_image : ℕ → Bool → List ℕ → List ℕ → List ℕ → Kernel → Option Kernel
  create_image p no_image no_name name arg k =
      let placed =
        place_image p k (with_range (record (k.image_at p) { name = name }) (sscanf_range arg)) in
      if no_image then some (set_image p (record (k.image_at p) { name = no_name }) k) else placed

  pub opd_create_vmlinux : Bool → List ℕ → List ℕ → Kernel → Option Kernel
  unfolding create_image
  opd_create_vmlinux no_vmlinux name arg k =
      create_image vmlinux_image no_vmlinux
        (b'n' ∷ b'o' ∷ b'-' ∷ b'v' ∷ b'm' ∷ b'l' ∷ b'i' ∷ b'n' ∷ b'u' ∷ b'x' ∷ []) name arg k

  pub opd_create_xen : Bool → List ℕ → List ℕ → Kernel → Option Kernel
  unfolding create_image
  opd_create_xen no_xen name arg k =
      create_image xen_image no_xen (b'n' ∷ b'o' ∷ b'-' ∷ b'x' ∷ b'e' ∷ b'n' ∷ []) name arg k

pub opd_create_module : List ℕ → ℕ → ℕ → Kernel → Kernel
opd_create_module name start end k = record {
  image_at =
      λ q. if q == k.next then record { name = name; start = start; end = end } else k.image_at q;
  modules = k.next ∷ k.modules;
  next = k.next + 1;
}

-- What `sscanf` reads in a line of /proc/modules: the name, the size and the address.
pub record ModuleLine : Type 0 where
  pub module_name : List ℕ
  pub module_size : ℕ
  pub start_address : ℕ

-- The size is an `int`, extended by its sign.
pub module_end : ModuleLine → ℕ
module_end m =
    (m.start_address
      + (if ltb m.module_size (2 ^ 31) then m.module_size else m.module_size + u64 - u32))
    % u64

abbrev pub create_line : Option ModuleLine → Kernel → Kernel
create_line none k = k
create_line (some m) k = opd_create_module m.module_name m.start_address (module_end m) k

-- The loop over the lines of /proc/modules; empty and malformed ones, `none` of `sscanf`, are passed.
module _ (sscanf_module : List ℕ → Option ModuleLine) where
  abbrev pub scan_line : List ℕ → Option ModuleLine
  scan_line [] = none
  scan_line (c ∷ line) = sscanf_module (c ∷ line)

  pub read_modules : List (List ℕ) → Kernel → Kernel
  unfolding opd_create_module module_end
  read_modules [] k = k
  read_modules (line ∷ lines) k = read_modules lines (create_line (scan_line line) k)

unfoldable pub contains : KernelImage → ℕ → Bool
contains image pc = leb image.start pc && ltb pc image.end

-- The walk along the list of modules.
unfoldable pub find_module : Kernel → ℕ → List ℕ → Option ℕ
unfolding contains
find_module k pc [] = none
find_module k pc (p ∷ modules) =
    let rest = find_module k pc modules in if contains (k.image_at p) pc then some p else rest

abbrev pub or_xen : Kernel → ℕ → Option ℕ → Option ℕ
or_xen k pc (some p) = some p
or_xen k pc none = if contains (k.image_at xen_image) pc then some xen_image else none

unfoldable pub find_kernel_image : Bool → Kernel → ℕ → Option ℕ
unfolding contains find_module
find_kernel_image no_vmlinux k pc =
    if no_vmlinux
    then some vmlinux_image
    else if contains (k.image_at vmlinux_image) pc
    then some vmlinux_image
    else or_xen k pc (find_module k pc k.modules)
