-- ===== src/Codegen/Traced/Kernel/Heap.antt =====
-- The handlers of codegen.py push and pop in balance: Kernel/Heap.
use aclmv.Prelude.{ℕ}
use aclmv.Ast.Kernel
use aclmv.Codegen.Kernel.Heap
use aclmv.Codegen.Traced.{Traced, traced_rules}
use aclmv.Codegen.Traced.Eval.{Traced-eval}

pub Traced-kernel_heap_init :
    {d : ℕ} (s : Kernel.KernelHeapInit) → Traced d (Heap.kernel_heap_init s) d
unfolding Heap.kernel_heap_init
Traced-kernel_heap_init s = search traced_rules depth 120 fits 4000

pub Traced-kernel_heap_alloc :
    {d : ℕ} (s : Kernel.KernelHeapAlloc) → Traced d (Heap.kernel_heap_alloc s) d
unfolding Heap.kernel_heap_alloc
Traced-kernel_heap_alloc s = search (traced_rules, Traced-eval) depth 120 fits 4000

pub Traced-kernel_net_init : {d : ℕ} → Traced d Heap.kernel_net_init d
unfolding Heap.kernel_net_init
Traced-kernel_net_init = search traced_rules depth 120 fits 4000

pub Traced-kernel_net_poll :
    {d : ℕ} (s : Kernel.KernelNetPoll) → Traced d (Heap.kernel_net_poll s) d
unfolding Heap.kernel_net_poll
Traced-kernel_net_poll s = search traced_rules depth 120 fits 4000

pub Traced-kernel_cs_ring : {d : ℕ} (s : Kernel.KernelCsRing) → Traced d (Heap.kernel_cs_ring s) d
unfolding Heap.kernel_cs_ring
Traced-kernel_cs_ring s = search traced_rules depth 120 fits 4000

pub Traced-kernel_net_allow :
    {d : ℕ} (s : Kernel.KernelNetAllowPort) → Traced d (Heap.kernel_net_allow s) d
unfolding Heap.kernel_net_allow
Traced-kernel_net_allow s = search traced_rules depth 120 fits 4000

pub Traced-kernel_net_check :
    {d : ℕ} (s : Kernel.KernelNetCheckPort) → Traced d (Heap.kernel_net_check s) d
unfolding Heap.kernel_net_check
Traced-kernel_net_check s = search (traced_rules, Traced-eval) depth 120 fits 4000

pub Traced-kernel_preempt_arm :
    {d : ℕ} (s : Kernel.KernelPreemptArm) → Traced d (Heap.kernel_preempt_arm s) d
unfolding Heap.kernel_preempt_arm
Traced-kernel_preempt_arm s = search traced_rules depth 120 fits 4000

pub Traced-kernel_nic_bar : {d : ℕ} (s : Kernel.KernelNicBar) → Traced d (Heap.kernel_nic_bar s) d
unfolding Heap.kernel_nic_bar
Traced-kernel_nic_bar s = search (traced_rules, Traced-eval) depth 120 fits 4000

pub Traced-kernel_nic_read :
    {d : ℕ} (s : Kernel.KernelNicRegRead) → Traced d (Heap.kernel_nic_read s) d
unfolding Heap.kernel_nic_read
Traced-kernel_nic_read s = search (traced_rules, Traced-eval) depth 120 fits 4000

pub Traced-kernel_nic_write :
    {d : ℕ} (s : Kernel.KernelNicRegWrite) → Traced d (Heap.kernel_nic_write s) d
unfolding Heap.kernel_nic_write
Traced-kernel_nic_write s = search (traced_rules, Traced-eval) depth 120 fits 4000
