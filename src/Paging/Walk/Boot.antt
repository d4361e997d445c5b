-- ===== src/Paging/Walk/Boot.antt =====
-- The tables that `init_paging` of kernel/src/paging.rs leaves, as the processor walks them.
use noctis.Common.{
  ℕ, ◌+◌, ◌-◌, ◌*◌, ◌^◌, ◌≤◌, ◌<◌, ◌≡◌, ◌≢◌, refl, sym, ap, ◌∙◌, arith, Bool, true, ok,
}
use mathlib.Core.Path.{subst}
use noctis.MemLayout.{
  VirtAddr, virt_to_phys, liner_mapping_base_vaddr, liner_mapping_size, apic_io_start_addr,
  apic_io_size,
}
use noctis.MemLayout.Index.{digit}
use noctis.Paging.Entry.{
  PageTableEntry, is_present, read_execute_kernel, read_kernel, read_write_kernel,
  read_write_kernel_1gib, read_write_kernel_io,
}
use noctis.Paging.Memory.{Memory, box_node}
use noctis.Paging.Memory.Node.{boxed}
use noctis.Paging.Table.{create_mapping}
use noctis.Paging.Table.Huge.{Holds}
use noctis.Paging.Init.{SymbolOffsets, write_cr3, map_section, init_paging}
use noctis.Paging.Walk.{child, Shape, IsTree, net}
use noctis.Tables.{IsPlain}
use noctis.Paging.Walk.Entries.{Beside}
use noctis.Paging.Walk.Descend.{at_room, trans_Beside}
use noctis.Paging.Walk.Pages.{IsTranslated, reshape}
use noctis.Paging.Walk.Mapping.{mapping-IsTranslated}
use noctis.Paging.Walk.Sections.{gate, IsGated, pages_of, map_section-IsTranslated}
use noctis.Paging.Walk.Window.{HasRoom, IsWindow, root_shape, opened}
use noctis.Paging.Walk.Space.{
  IsImage, tables_for, rodata_base, data_base, rodata_fits, text_fits, spaces,
}
use noctis.Paging.Walk.Reached.{IsKernelSpace, reached}

init_paging-run :
    (s : SymbolOffsets) (root phys : ℕ) (m m1 m2 m3 m4 m5 m6 : Memory)
    → box_node m ≡ ok (root, m1)
    → create_mapping root liner_mapping_base_vaddr 0 liner_mapping_size read_write_kernel_1gib m1
      ≡ ok (tt, m2)
    → map_section root s.text s.text_end read_execute_kernel m2 ≡ ok (tt, m3)
    → map_section root s.rodata s.rodata_end read_kernel m3 ≡ ok (tt, m4)
    → map_section root s.data_start s.bss_end read_write_kernel m4 ≡ ok (tt, m5)
    → create_mapping root apic_io_start_addr apic_io_start_addr apic_io_size read_write_kernel_io m5
      ≡ ok (tt, m6)
    → virt_to_phys root ≡ ok phys
    → init_paging s m ≡ ok (root, record m6 { cr3 = phys })
unfolding init_paging write_cr3
init_paging-run s root phys m m1 m2 m3 m4 m5 m6 e1 e2 e3 e4 e5 e6 e7 =
    rw (e1, e2, e3, e4, e5, e6, e7) refl

room_eq : {a b : ℕ} {m : Memory} → a ≡ b → HasRoom a m → HasRoom b m
room_eq {a} {b} {m} e h = subst (λ k. HasRoom k m) e h

window-virt_to_phys :
    (v : VirtAddr)
    → liner_mapping_base_vaddr ≤ v
    → v < liner_mapping_base_vaddr + liner_mapping_size
    → virt_to_phys v ≡ ok (v - liner_mapping_base_vaddr)
unfolding virt_to_phys
window-virt_to_phys v lo hi = ground arith

-- What leaves nodes beside the tree alone leaves the linear window alone.
kept-IsWindow :
    (root : VirtAddr) (s' : Shape) (m m' : Memory)
    → (root_shape root).rank root ≡ 4
    → IsWindow root m
    → child (m.nodes root 273) < m.heap.value.next
    → root ≢ child (m.nodes root 273)
    → Beside (root_shape root) s' m m'
    → IsWindow root m'
kept-IsWindow root s' m m' top w given outside beside =
    let at : m'.nodes root 273 ≡ m.nodes root 273 =
      beside.upper root 273 (omega (arith, top)) w.present in
    let flat : (root_shape root).rank (child (m.nodes root 273)) ≡ 0 = ground arith in
    record {
      present = ap is_present at ∙ w.present;
      plain = subst IsPlain (sym at) w.plain;
      frames = λ j lt.
          subst (λ e. Holds e (j * 2 ^ 30) read_write_kernel_1gib)
            (sym (
              ap (λ (e : PageTableEntry). m'.nodes (child e) j) at
              ∙ beside.apart (child (m.nodes root 273)) j given flat))
            (w.frames j lt);
    }

apic-gate : (j : ℕ) → j < 1 → gate (digit (apic_io_start_addr + j * 4096) 4) ≡ true
apic-gate j lt = let none_else : j ≡ 0 = omega arith in ground arith

apic-IsTranslated :
    (root : VirtAddr) (s0 s : Shape) (m : Memory)
    → IsTree root 6 s m
    → IsGated s0
    → IsGated s
    → (m' : Memory) × (s' : Shape) × (create_mapping root apic_io_start_addr apic_io_start_addr
          apic_io_size read_write_kernel_io m
        ≡ ok (tt, m'))
      × IsTree root 0 s' m'
      × IsGated s'
      × Beside s s' m m'
      × IsTranslated root s0 apic_io_start_addr apic_io_start_addr read_write_kernel_io 1 m m'
apic-IsTranslated root s0 s m tree g0 g =
    let (m', s', run, tree', still, beside, done) =
      mapping-IsTranslated root 0 apic_io_start_addr apic_io_start_addr apic_io_size
        read_write_kernel_io s m (at_room (omega arith) tree) (ap (λ (f : ℕ → Bool). f 0) g)
        (λ j lt.
          ap (λ (f : ℕ → Bool). f (digit (apic_io_start_addr + j * 4096) 4)) g ∙ apic-gate j lt)
        refl refl refl (omega arith) (omega arith) (omega arith) in
    (
      m',
      s',
      run,
      at_room (omega arith) tree',
      still ∙ g,
      beside,
      reshape root 1 apic_io_start_addr apic_io_start_addr read_write_kernel_io s0 s m m'
          (g ∙ sym g0) done,
    )

-- `init_paging` comes to an end where the sections of the image lie in order, on page boundaries, in
-- the window of the kernel image, and the heap has room for the tables, in the linear window. Behind
-- it `cr3` holds the table that it returns; the processor's walk translates each page of the sections to
-- the frame under it with the rights of its section, the page of the interrupt controller to itself, and
-- the linear window to the first 512 GiB, to read and write; outside that window nothing else is
-- translated. No page is for user mode.
pub init_paging_lem :
    (s : SymbolOffsets) (m : Memory)
    → IsImage s
    → HasRoom (tables_for s) m
    → (root : VirtAddr) × (m' : Memory) × (init_paging s m ≡ ok (root, m'))
      × IsKernelSpace s root m'
init_paging_lem s m image room =
    let k1 = pages_of s.text s.text_end in
    let k2 = pages_of s.rodata s.rodata_end in
    let k3 = pages_of s.data_start s.bss_end in
    let (root, m2, start) = opened (15 + 3 * (k1 + k2 + k3)) m (room_eq (omega arith) room) in
    let (m3, s3, run3, tree3, g3, b3, t) =
      map_section-IsTranslated root (12 + 3 * (k2 + k3)) s.text s.text_end read_execute_kernel
        (root_shape root) (root_shape root) m2 (at_room (omega arith) start.tree) refl refl refl
        image.text_page image.base image.text_order (text_fits s image root) in
    let (m4, s4, run4, tree4, g4, b4, r) =
      map_section-IsTranslated root (9 + 3 * k3) s.rodata s.rodata_end read_kernel (root_shape root)
        s3 m3 (at_room (omega arith) tree3) refl g3 refl image.rodata_page
        (rodata_base s image root) image.rodata_order (rodata_fits s image root) in
    let (m5, s5, run5, tree5, g5, b5, d) =
      map_section-IsTranslated root 6 s.data_start s.bss_end read_write_kernel (root_shape root) s4
        m4 (at_room (omega arith) tree4) refl g4 refl image.data_page (data_base s image root)
        image.data_order image.data_fits in
    let (m6, s6, run6, tree6, g6, b6, a) =
      apic-IsTranslated root (root_shape root) s5 m5 tree5 refl g5 in
    let phys = root - liner_mapping_base_vaddr in
    let translated = window-virt_to_phys root start.above start.below in
    (
      root,
      record m6 { cr3 = phys },
      init_paging-run s root phys m (boxed m root) m2 m3 m4 m5 m6 start.placed start.run run3 run4
          run5 run6 translated,
      reached s image root s6 (record m6 { cr3 = phys }) (net tree6) g6
          (spaces s image root m2 m3 m4 m5 m6 phys start.nothing t r d a translated (
            kept-IsWindow root s6 m2 m6 start.tree.top start.window start.given start.outside (
              trans_Beside {s2 = s6} {m2 = m6} b3
                (trans_Beside {s2 = s6} {m2 = m6} b4 (trans_Beside {s2 = s6} {m2 = m6} b5 b6))))),
    )
