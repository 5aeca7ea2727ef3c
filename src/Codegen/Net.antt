-- ===== src/Codegen/Net.antt =====
-- ACLM/codegen.py: sockets and polling.
use aclmv.Prelude.{[], ◌∷◌}
use aclmv.Prelude.Int.{pos}
use aclmv.Ast.System
use aclmv.Encoder.Call
use aclmv.Codegen.{Gen, ◌>>=◌, ◌>>◌, asm, resolve_name, move_unless, push_all}
use aclmv.Codegen.Eval.{eval, eval_or}

unfoldable pub net_socket : System.NetSocket → Gen (Unit {0})
net_socket s = do
  eval s.domain "rdi"
  eval s.type_ "rsi"
  eval s.protocol "rdx"
  asm (Call.mov_reg_imm64 "rax" (pos 41))
  asm Call.syscall
  dst ← resolve_name s.dest
  move_unless dst "rax"

unfoldable pub net_connect : System.NetConnect → Gen (Unit {0})
net_connect s = do
  eval s.sock "rdi"
  eval s.addr "rsi"
  eval s.addrlen "rdx"
  asm (Call.mov_reg_imm64 "rax" (pos 42))
  asm Call.syscall

unfoldable pub net_send : System.NetSend → Gen (Unit {0})
net_send s = do
  eval s.sock "rdi"
  eval s.buf "rsi"
  eval s.length "rdx"
  asm (Call.xor_reg_reg "r10" "r10")
  asm (Call.mov_reg_imm64 "rax" (pos 44))
  asm Call.syscall

unfoldable pub net_recv : System.NetRecv → Gen (Unit {0})
net_recv s = do
  eval s.sock "rdi"
  eval s.buf "rsi"
  eval s.length "rdx"
  asm (Call.xor_reg_reg "r10" "r10")
  asm (Call.mov_reg_imm64 "rax" (pos 45))
  asm Call.syscall

unfoldable pub net_close : System.NetClose → Gen (Unit {0})
net_close s = do eval s.sock "rdi"; asm (Call.mov_reg_imm64 "rax" (pos 3)); asm Call.syscall

unfoldable pub net_poll : System.NetPoll → Gen (Unit {0})
net_poll s = do
  push_all ("r12" ∷ "r13" ∷ "r14" ∷ [])
  eval s.fds "r12"
  eval s.nfds "r13"
  eval s.timeout "r14"
  asm (Call.mov_reg_reg "rdi" "r12")
  asm (Call.mov_reg_reg "rsi" "r13")
  asm (Call.mov_reg_reg "rdx" "r14")
  asm (Call.mov_reg_imm64 "rax" (pos 7))
  asm Call.syscall
  asm (Call.pop_reg "r14")
  asm (Call.pop_reg "r13")
  asm (Call.pop_reg "r12")

unfoldable pub net_epoll_create : System.NetEpollCreate → Gen (Unit {0})
net_epoll_create s = do
  eval_or s.flags "rdi" (asm (Call.xor_reg_reg "rdi" "rdi"))
  asm (Call.mov_reg_imm64 "rax" (pos 0x123))
  asm Call.syscall
  dst ← resolve_name s.dest
  move_unless dst "rax"

unfoldable pub net_epoll_ctl : System.NetEpollCtl → Gen (Unit {0})
net_epoll_ctl s = do
  push_all ("r12" ∷ "r13" ∷ "r14" ∷ "rbx" ∷ [])
  eval s.epfd "r12"
  eval s.op "r13"
  eval s.fd "r14"
  eval s.event_ptr "rbx"
  asm (Call.mov_reg_reg "rdi" "r12")
  asm (Call.mov_reg_reg "rsi" "r13")
  asm (Call.mov_reg_reg "rdx" "r14")
  asm (Call.mov_reg_reg "r10" "rbx")
  asm (Call.mov_reg_imm64 "rax" (pos 233))
  asm Call.syscall
  asm (Call.pop_reg "rbx")
  asm (Call.pop_reg "r14")
  asm (Call.pop_reg "r13")
  asm (Call.pop_reg "r12")

unfoldable pub net_epoll_wait : System.NetEpollWait → Gen (Unit {0})
net_epoll_wait s = do
  push_all ("r12" ∷ "r13" ∷ "r14" ∷ "rbx" ∷ [])
  eval s.epfd "r12"
  eval s.events "r13"
  eval s.maxevents "r14"
  eval s.timeout "rbx"
  asm (Call.mov_reg_reg "rdi" "r12")
  asm (Call.mov_reg_reg "rsi" "r13")
  asm (Call.mov_reg_reg "rdx" "r14")
  asm (Call.mov_reg_reg "r10" "rbx")
  asm (Call.mov_reg_imm64 "rax" (pos 232))
  asm Call.syscall
  dst ← resolve_name s.dest
  move_unless dst "rax"
  asm (Call.pop_reg "rbx")
  asm (Call.pop_reg "r14")
  asm (Call.pop_reg "r13")
  asm (Call.pop_reg "r12")
