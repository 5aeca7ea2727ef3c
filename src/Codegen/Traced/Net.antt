-- ===== src/Codegen/Traced/Net.antt =====
-- The handlers of codegen.py push and pop in balance: Net.
use aclmv.Prelude.{ℕ}
use aclmv.Ast.System
use aclmv.Codegen.Net
use aclmv.Codegen.Traced.{Traced, traced_rules}
use aclmv.Codegen.Traced.Eval.{Traced-eval, Traced-eval_or}

pub Traced-net_socket : {d : ℕ} (s : System.NetSocket) → Traced d (Net.net_socket s) d
unfolding Net.net_socket
Traced-net_socket s = search (traced_rules, Traced-eval) depth 120 fits 4000

pub Traced-net_connect : {d : ℕ} (s : System.NetConnect) → Traced d (Net.net_connect s) d
unfolding Net.net_connect
Traced-net_connect s = search (traced_rules, Traced-eval) depth 120 fits 4000

pub Traced-net_send : {d : ℕ} (s : System.NetSend) → Traced d (Net.net_send s) d
unfolding Net.net_send
Traced-net_send s = search (traced_rules, Traced-eval) depth 120 fits 4000

pub Traced-net_recv : {d : ℕ} (s : System.NetRecv) → Traced d (Net.net_recv s) d
unfolding Net.net_recv
Traced-net_recv s = search (traced_rules, Traced-eval) depth 120 fits 4000

pub Traced-net_close : {d : ℕ} (s : System.NetClose) → Traced d (Net.net_close s) d
unfolding Net.net_close
Traced-net_close s = search (traced_rules, Traced-eval) depth 120 fits 4000

pub Traced-net_poll : {d : ℕ} (s : System.NetPoll) → Traced d (Net.net_poll s) d
unfolding Net.net_poll
Traced-net_poll s = search (traced_rules, Traced-eval) depth 120 fits 4000

pub Traced-net_epoll_create :
    {d : ℕ} (s : System.NetEpollCreate) → Traced d (Net.net_epoll_create s) d
unfolding Net.net_epoll_create
Traced-net_epoll_create s = search (traced_rules, Traced-eval_or) depth 120 fits 4000

pub Traced-net_epoll_ctl : {d : ℕ} (s : System.NetEpollCtl) → Traced d (Net.net_epoll_ctl s) d
unfolding Net.net_epoll_ctl
Traced-net_epoll_ctl s = search (traced_rules, Traced-eval) depth 120 fits 4000

pub Traced-net_epoll_wait : {d : ℕ} (s : System.NetEpollWait) → Traced d (Net.net_epoll_wait s) d
unfolding Net.net_epoll_wait
Traced-net_epoll_wait s = search (traced_rules, Traced-eval) depth 120 fits 4000
