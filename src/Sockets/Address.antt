-- ===== src/Sockets/Address.antt =====
-- 011network and 012_network_IO: how the servers and the clients set up their sockets, and with
-- which addresses. Nothing checks the answers. `htons`, `htonl` and `inet_pton` are parameters; a
-- text is its bytes.
use linux_c_program_exercris.Prelude.{ℕ, List, [], ◌∷◌, ℤ}

abbrev pub af_inet : ℕ
af_inet = 2

abbrev pub sock_stream : ℕ
sock_stream = 1

abbrev pub sock_dgram : ℕ
sock_dgram = 2

abbrev pub server_port : ℕ
server_port = 8123

abbrev pub client_port : ℕ
client_port = 8124

abbrev pub inaddr_any : ℕ
inaddr_any = 0

-- "10.42.1.144", "127.0.0.1", "0.0.0.0" and "239.0.0.3".
abbrev pub server_ip : List ℕ
server_ip = 49 ∷ 48 ∷ 46 ∷ 52 ∷ 50 ∷ 46 ∷ 49 ∷ 46 ∷ 49 ∷ 52 ∷ 52 ∷ []

abbrev pub local_ip : List ℕ
local_ip = 49 ∷ 50 ∷ 55 ∷ 46 ∷ 48 ∷ 46 ∷ 48 ∷ 46 ∷ 49 ∷ []

abbrev pub any_ip : List ℕ
any_ip = 48 ∷ 46 ∷ 48 ∷ 46 ∷ 48 ∷ 46 ∷ 48 ∷ []

abbrev pub group_ip : List ℕ
group_ip = 50 ∷ 51 ∷ 57 ∷ 46 ∷ 48 ∷ 46 ∷ 48 ∷ 46 ∷ 51 ∷ []

-- `struct sockaddr_in` and `struct ip_mreqn`, in network byte order.
pub record Address : Type 0 where
  pub family : ℕ
  pub addr : ℕ
  pub port : ℕ

pub record Group : Type 0 where
  pub multiaddr : ℕ
  pub address : ℕ
  pub ifindex : ℕ

-- A call of the setup; `sockfd` is what `socket` answered.
pub data SetupCall : Type 0 where
  socket : ℕ → ℕ → SetupCall
  bind connect : ℤ → Address → SetupCall
  listen : ℤ → ℕ → SetupCall
  multicast_if add_membership : ℤ → Group → SetupCall

-- `htons`, `htonl`, `inet_pton`, and `if_nametoindex("eth0")`.
pub record Net : Type 0 where
  pub htons : ℕ → ℕ
  pub htonl : ℕ → ℕ
  pub inet_pton : List ℕ → ℕ
  pub eth0 : ℕ

module _ (net : Net) where
  open net use {htons, htonl, inet_pton, eth0}

  unfoldable pub serveraddr : Address
  serveraddr = record { family = af_inet; addr = htonl inaddr_any; port = htons server_port }

  -- 01TCP and 03TCP_FORK.
  unfoldable pub tcp_server : ℤ → List SetupCall
  unfolding serveraddr
  tcp_server fd = socket af_inet sock_stream ∷ bind fd serveraddr ∷ listen fd 128 ∷ []

  unfoldable pub udp_server : ℤ → List SetupCall
  unfolding serveraddr
  udp_server fd = socket af_inet sock_dgram ∷ bind fd serveraddr ∷ []

  -- 01select, 02poll and 03epoll.
  unfoldable pub io_server : ℤ → List SetupCall
  unfolding serveraddr
  io_server fd = socket af_inet sock_stream ∷ bind fd serveraddr ∷ listen fd 28 ∷ []

  unfoldable pub clientaddr : List ℕ → Address
  clientaddr ip = record { family = af_inet; addr = inet_pton ip; port = htons server_port }

  unfoldable pub tcp_client : ℤ → List SetupCall
  unfolding clientaddr
  tcp_client fd = socket af_inet sock_stream ∷ connect fd (clientaddr server_ip) ∷ []

  -- The address that `sendto` gets.
  unfoldable pub udp_client : ℤ → List SetupCall × Address
  unfolding clientaddr
  udp_client fd = (socket af_inet sock_dgram ∷ [], clientaddr server_ip)

  unfoldable pub io_client : ℤ → List SetupCall
  unfolding clientaddr
  io_client fd = socket af_inet sock_stream ∷ connect fd (clientaddr local_ip) ∷ []

  -- `group` of both programs of 04udp_broadcast.
  unfoldable pub group : Group
  group = record { multiaddr = inet_pton group_ip; address = inet_pton any_ip; ifindex = eth0 }

  unfoldable pub sender : ℤ → List SetupCall × Address
  unfolding group serveraddr
  sender fd = (
    socket af_inet sock_dgram ∷ bind fd serveraddr ∷ multicast_if fd group ∷ [],
    record { family = af_inet; addr = inet_pton group_ip; port = htons client_port },
  )

  unfoldable pub receiver : ℤ → List SetupCall
  unfolding group
  receiver fd =
      socket af_inet sock_dgram
      ∷ bind fd (record { family = af_inet; addr = inet_pton any_ip; port = htons client_port })
      ∷ add_membership fd group
      ∷ []
