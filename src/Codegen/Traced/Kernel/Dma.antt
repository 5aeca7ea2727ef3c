-- ===== src/Codegen/Traced/Kernel/Dma.antt =====
-- The handlers of codegen.py push and pop in balance: Kernel/Dma.
use aclmv.Prelude.{
  ℕ, ◌+◌, ◌*◌, ◌≡◌, refl, length, Bool, true, false, if◌then◌else◌, has, insert, replicate, ◌++◌,
}
use aclmv.Ast.Kernel
use aclmv.Codegen.{Generator}
use aclmv.Codegen.Kernel.Dma
use aclmv.Codegen.Traced.{Traced, Traced-set, Traced-step, traced_rules}
use aclmv.Codegen.Traced.Eval.{Traced-eval}

reserved_ring :
    (s : Kernel.KernelDmaRingInit) (b : Bool) (g : Generator)
    → let h = if b then g else record g {
      data_layout =
          insert "__dmaring_slots" s.slots (insert "__dmaring" (length g.data_bytes) g.data_layout);
      data_bytes = g.data_bytes ++ replicate (16 + s.slots * 16) 0;
    } in
      (h.asm' ≡ g.asm') × (h.called ≡ g.called)
reserved_ring s true g = (refl, refl)
reserved_ring s false g = (refl, refl)

pub Traced-kernel_dma_ring_init :
    {d : ℕ} (s : Kernel.KernelDmaRingInit) → Traced d (Dma.kernel_dma_ring_init s) d
unfolding Dma.kernel_dma_ring_init
Traced-kernel_dma_ring_init s =
    Traced-step (Traced-set _ λ g. reserved_ring s (has "__dmaring" g.data_layout) g)
      λ _. search traced_rules depth 20

pub Traced-kernel_dma_ring_push :
    {d : ℕ} (s : Kernel.KernelDmaRingPush) → Traced d (Dma.kernel_dma_ring_push s) d
unfolding Dma.kernel_dma_ring_push
Traced-kernel_dma_ring_push s = search (traced_rules, Traced-eval) depth 120 fits 4000

pub Traced-kernel_dma_ring_pop :
    {d : ℕ} (s : Kernel.KernelDmaRingPop) → Traced d (Dma.kernel_dma_ring_pop s) d
unfolding Dma.kernel_dma_ring_pop
Traced-kernel_dma_ring_pop s = search traced_rules depth 120 fits 4000
