-- ===== src/Kernel/Tests.antt =====
-- A kernel with two modules, and the theorem at it.
use mathlib.Core.Option
use oprofile.Base.{
  ℕ, ◌*◌, ◌≡◌, refl, true, false, Option, some, none, List, [], ◌∷◌, ◌==◌, if◌then◌else◌,
}
use oprofile.Kernel.{
  KernelImage, Kernel, vmlinux_image, opd_create_vmlinux, ModuleLine, read_modules, module_end,
  opd_create_module, contains, find_module, find_kernel_image,
}

abbrev vmlinux : KernelImage
vmlinux = record { name = b'v' ∷ []; start = 4096; end = 8192 }

abbrev xen : KernelImage
xen = record { name = b'x' ∷ []; start = 1000; end = 2000 }

abbrev booted : Kernel
booted = record { image_at = λ p. if p == 0 then vmlinux else xen; modules = []; next = 2 }

-- A line is a letter for the name, and the numbers of 256 bytes in the size and the address.
abbrev read_line : List ℕ → Option ModuleLine
read_line (a ∷ b ∷ c ∷ []) =
    some (record { module_name = a ∷ []; module_size = b * 256; start_address = c * 256 })
read_line line = none

abbrev lines : List (List ℕ)
lines = (b'e' ∷ 4 ∷ 64 ∷ []) ∷ [] ∷ (7 ∷ []) ∷ (b'f' ∷ 2 ∷ 80 ∷ []) ∷ []

module_found : find_kernel_image false (read_modules read_line lines booted) 16385 ≡ some 2
unfolding read_modules opd_create_module module_end find_kernel_image contains find_module
module_found = refl

no_image : find_kernel_image false (read_modules read_line lines booted) 9000 ≡ none
unfolding read_modules opd_create_module module_end find_kernel_image contains find_module
no_image = refl

without_vmlinux : find_kernel_image true booted 9000 ≡ some vmlinux_image
unfolding find_kernel_image contains find_module
without_vmlinux = refl

no_range :
    opd_create_vmlinux
      (λ s. (some 0, none))
      false
      []
      []
      (record booted { image_at = λ p. record { name = []; start = 0; end = 0 } })
    ≡ none
unfolding opd_create_vmlinux
no_range = refl
