-- ===== src/Game.antt =====
-- Source/Game/ServerMain.cpp: the program of the server. A command line argument is the list of its
-- characters; the console, the clock and the pauses of the loop are left out.
pub mod Connections
pub mod Startup
use mmorpg_server.Base.{
  [], ℕ, none, some, arith, if◌then◌else◌, Bool, List, Option, ◌==◌, leb, ◌∷◌, true, not, ◌||◌,
  ◌&&◌, ◌*◌, sub64, false, ◌+◌, u16, ◌-◌,
}
use mmorpg_server.Common.Types.{max_io_threads, max_local_threads, buffer_pool_init_size}
use mmorpg_server.Common.PacketPool as PacketPool
use mmorpg_server.Network.Monitor.{update_monitor}
use mmorpg_server.Network.World.{World, Env, set_socket}
use mmorpg_server.Network.Socket
use mmorpg_server.Network.Listener.{
  Listener, SocketPool, AcceptorResults, new_listener, set_connection_handler, start_listener,
  stop_listener,
}
use mmorpg_server.Threading.ThreadManager.{
  ThreadManager, route_new_connection, initialize, shutdown_all,
}

-- The singletons
pub record Program : Type 0 where
  pub manager : ThreadManager
  pub world : World

-- `CSocketPool`. `garbage` is what the memory of a new receive buffer holds.
unfoldable pub sockets_of : Env → (ℕ → ℕ) → SocketPool Program
sockets_of e garbage = record {
  create_socket =
      λ s socket. record s { world = set_socket s.world socket (Socket.create_socket garbage) };
  destroy_socket = λ s socket. record s { world = Socket.destroy_socket_now e s.world socket };
}

unfoldable pub on_new_connection : Env → Program → Option ℕ → Program
on_new_connection e s none = s
on_new_connection e s (some socket) =
    let (routed, manager) = route_new_connection s.manager (some socket) in
    let s' = record s { manager = manager } in
    if routed then s' else record s' { world = Socket.destroy_socket_now e s.world socket }

-- The callback of the listener, which calls it with a socket
abbrev pub connection_callback : Env → Program → ℕ → Program
connection_callback e s socket = on_new_connection e s (some socket)

-- `isspace` of the C locale
abbrev pub is_space : ℕ → Bool
is_space c = (c == 32) || (leb 9 c && leb c 13)

abbrev pub is_digit : ℕ → Bool
is_digit c = leb 48 c && leb c 57

-- The value of the digits at the front, after a value
unfoldable pub read_digits : ℕ → List ℕ → ℕ
read_digits value [] = value
read_digits value (c ∷ rest) =
    let more = read_digits (value * 10 + (c - 48)) rest in if is_digit c then more else value

-- `atoi` behind the white space, as a number modulo 2 ^ 64
unfoldable pub read_signed : List ℕ → ℕ
read_signed [] = 0
read_signed (c ∷ rest) =
    if c == 45
    then sub64 0 (read_digits 0 rest)
    else if c == 43
    then read_digits 0 rest
    else read_digits 0 (c ∷ rest)

-- `static_cast<size_t>(atoi(s))`, for a value that `int` holds
unfoldable pub atoi : List ℕ → ℕ
atoi [] = 0
atoi (c ∷ rest) = let skipped = atoi rest in if is_space c then skipped else read_signed (c ∷ rest)

-- `strcmp(s, t) == 0`
unfoldable pub same_string : List ℕ → List ℕ → Bool
same_string [] [] = true
same_string [] (_ ∷ _) = false
same_string (_ ∷ _) [] = false
same_string (c ∷ s) (d ∷ t) = (c == d) && same_string s t

-- "-p", "-local", "-h" and "--help"
abbrev pub port_option : List ℕ
port_option = 45 ∷ 112 ∷ []

abbrev pub local_option : List ℕ
local_option = 45 ∷ 108 ∷ 111 ∷ 99 ∷ 97 ∷ 108 ∷ []

abbrev pub short_help_option : List ℕ
short_help_option = 45 ∷ 104 ∷ []

abbrev pub help_option : List ℕ
help_option = 45 ∷ 45 ∷ 104 ∷ 101 ∷ 108 ∷ 112 ∷ []

pub record Config : Type 0 where
  pub port : ℕ
  pub io_threads : ℕ
  pub local_threads : ℕ

abbrev pub default_config : Config
default_config = record {
  port = 9000;
  io_threads = max_io_threads;
  local_threads = max_local_threads;
}

-- The loop over the arguments; `none` is the help, after which `main` returns.
unfoldable pub parse_args : List (List ℕ) → Config → Option Config
parse_args [] c = some c
parse_args (arg ∷ []) c =
    if same_string arg short_help_option || same_string arg help_option then none else some c
parse_args (arg ∷ value ∷ rest) c =
    let with_port = parse_args rest (record c { port = u16 (atoi value) }) in
    let with_local = parse_args rest (record c { local_threads = atoi value }) in
    let skipped = parse_args (value ∷ rest) c in
    if same_string arg port_option
    then with_port
    else if same_string arg local_option
    then with_local
    else if same_string arg short_help_option || same_string arg help_option
    then none
    else skipped

pub record Server : Type 0 where
  pub program : Program
  pub listener : Listener Program

abbrev pub with_pool : Program → PacketPool.PacketPool → Program
with_pool s pool = record s { world = record s.world { pool = pool } }

-- From the pool of packets to the listener; `false` is the return of 1. A part that fails shuts the
-- parts before it down.
unfoldable pub start_server : AcceptorResults → Env → Config → Program → Bool × Server
start_server r e c s =
    let listener = new_listener c.port in
    let (pool_started, pool) = PacketPool.initialize s.world.pool buffer_pool_init_size in
    let s1 = with_pool s pool in
    let (threads_started, manager) = initialize s1.manager c.io_threads c.local_threads in
    let s2 = record s1 { manager = manager } in
    let (listening, l) =
      start_listener r (set_connection_handler listener (some (connection_callback e))) in
    let (manager', world') = shutdown_all e s2.manager s2.world in
    let s3 : Program = record { manager = manager'; world = world' } in
    if not pool_started
    then (false, record { program = s1; listener = listener })
    else if not threads_started
    then (
      false,
      record {
        program = with_pool s2 (PacketPool.shutdown_pool s2.world.pool);
        listener = listener;
      },
    )
    else if not listening
    then (
      false,
      record { program = with_pool s3 (PacketPool.shutdown_pool s3.world.pool); listener = l },
    )
    else (true, record { program = s2; listener = l })

-- The end of `main`
unfoldable pub stop_server : Env → Server → Server
stop_server e s =
    let (manager, world) = shutdown_all e s.program.manager s.program.world in
    let stopped : Program = record { manager = manager; world = world } in
    record {
      program = with_pool stopped (PacketPool.shutdown_pool world.pool);
      listener = stop_listener s.listener;
    }

-- `CheckNetworkStallTest`: the key that was hit, if any, and whether the server goes on
unfoldable pub check_network_stall_test : World → Option ℕ → Bool × World
check_network_stall_test w none = (true, w)
check_network_stall_test w (some ch) =
    if (ch == 113) || (ch == 81)
    then (false, w)
    else if (ch == 112) || (ch == 80)
    then (true, record w { network_stall_test = not w.network_stall_test })
    else (true, w)

-- A round of the loop of `main`, `delta` milliseconds after the one before, with the key that was hit
unfoldable pub main_round : World → ℕ → Option ℕ → Bool × World
main_round w delta key =
    check_network_stall_test (record w { monitor = update_monitor w.monitor delta }) key
