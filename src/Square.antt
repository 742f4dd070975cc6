-- ===== src/Square.antt =====
-- src/server.cpp: `SQEServer::ProcessRequset`, which registers clients, lets them log in and gives the
-- public key away. RapidJSON, SQLite and the random engine are parameters.
pub mod Handlers
pub mod Logins
pub mod Again
use net_cpp.Base.{
  ℕ, zero, suc, ◌+◌, ◌*◌, ◌/◌, ◌%◌, ◌^◌, Bool, true, false, Option, none, some, List, [], ◌∷◌, ◌++◌,
  Bytes, codes, string_eq, length, take, drop, replicate, map, ℤ, pos, leb, ◌==◌, if◌then◌else◌,
}
use net_cpp.Number.{low_word}
use net_cpp.Outcome.{Outcome, ok, fault, ◌>>=◌}
use net_cpp.Wire.{to_le, from_le}
use net_cpp.Wire.Packet.{Packet}
use net_cpp.Wire.Request.{Request, Respond, respond_to_packet}
use net_cpp.Wire.Post.{AesKey256, get_key}
use net_cpp.Clock.{Clocks, ClockRegister, new_clock}

-- `client_register`, without the thread and the database.
pub record ClientRegister : Type 0 where
  pub client_id : ℕ
  pub key : AesKey256
  pub name : Bytes
  pub tag : Bytes
  pub click : ℕ
  pub passwd : ℕ
  pub t_addr : Bytes

-- A row of the table register_info.
pub record RegisterInfo : Type 0 where
  pub name : Bytes
  pub tag : Bytes
  pub client_id : ℕ
  pub key : Bytes
  pub ip : Bytes
  pub udp_port : ℕ
  pub tcp_port : ℕ
  pub passwd : ℕ
  pub status : ℕ

-- `Addr::SetPort` and `Addr::SetIP` on the bytes of a sockaddr_in, whose port is big-endian.
unfoldable pub set_port : ℕ → Bytes → Bytes
set_port port a = take 2 a ++ (port / 256 % 256 ∷ port % 256 ∷ drop 4 a)

unfoldable pub set_ip : Bytes → Bytes → Bytes
set_ip s_addr a = take 4 a ++ (s_addr ++ drop 8 a)

-- The number of `clientWaitDeamon` among the functions of clocks.
abbrev pub client_wait_deamon : ℕ
client_wait_deamon = 3

-- `map::find` and `map::insert`
unfoldable pub find_id {ℓ} : {V : Type ℓ} → ℕ → List (ℕ × V) → Option V
find_id id [] = none
find_id id ((i, v) ∷ m) = if i == id then some v else find_id id m

unfoldable pub insert_id {ℓ} : {V : Type ℓ} → ℕ → V → List (ℕ × V) → List (ℕ × V)
insert_id id v [] = (id, v) ∷ []
insert_id id v ((i, w) ∷ m) = if i == id then (i, w) ∷ m else (i, w) ∷ insert_id id v m

-- The four numbers in 32 bytes.
unfoldable pub key_of_bytes : Bytes → AesKey256
unfolding from_le
key_of_bytes b = record {
  key0 = from_le (take 8 b);
  key1 = from_le (take 8 (drop 8 b));
  key2 = from_le (take 8 (drop 16 b));
  key3 = from_le (take 8 (drop 24 b));
}

-- `pkey[idx++] = kitem.GetInt()`: a write behind the key is undefined.
unfoldable pub write_key : List ℤ → AesKey256 → Outcome AesKey256
unfolding key_of_bytes get_key low_word
write_key items k =
    if leb (length items) 32
    then ok (key_of_bytes (map (low_word 256) items ++ drop (length items) (get_key k)))
    else fault

-- RapidJSON: a member of an object in a text, which must be there and of the type. SQLite: the rows
-- of register_info. `rand64` and `inet_addr`, and the bytes of the public key.
pub record Outside : Type 1 where
  pub json_ints : Bytes → Bytes → Outcome (List ℤ)
  pub json_string : Bytes → Bytes → Outcome Bytes
  pub json_int : Bytes → Bytes → Outcome ℤ
  pub Rows : Type 0
  pub insert_row : RegisterInfo → Rows → Rows
  pub select_row : ℕ → Rows → Option RegisterInfo
  pub set_status : ℕ → ℕ → Rows → Rows
  pub Seed : Type 0
  pub rand64 : Seed → ℕ × Seed
  pub inet_addr : Bytes → Bytes
  pub pkc : Bytes
  pub behind : Bytes

module _ (o : Outside) where
  open o use {
    json_ints, json_string, json_int, Rows, insert_row, select_row, set_status, Seed, rand64,
    inet_addr, pkc, behind,
  }

  -- `SQEServer`
  pub record SqeServer : Type 0 where
    pub req_list : List Request
    pub packets_out : List Packet
    pub rids : List (ℕ × ClientRegister)
    pub client_lst : List (ℕ × ClientRegister)
    pub clocks : Clocks
    pub rows : Rows
    pub seed : Seed

  -- `Respond2Packet` of a respond to a request, and `packets_out.push_back`.
  unfoldable pub push_respond : Request → Bytes → Bytes → SqeServer → SqeServer
  unfolding respond_to_packet set_port
  push_respond q type buff s =
      let pnr : Respond = record {
        r_id = q.r_id;
        type = type;
        buff = buff;
        t_addr = set_port (q.recv_port % 2 ^ 16) q.t_addr;
      } in
      let blank : Packet = record { type = 0; address = []; buffs = []; if_encrypt = false } in
      record s { packets_out = s.packets_out ++ respond_to_packet behind pnr blank ∷ [] }

  -- `new client_register()`: its key is random.
  unfoldable pub new_client : SqeServer → ClientRegister × SqeServer
  new_client s =
      let (k0, s0) = rand64 s.seed in
      let (k1, s1) = rand64 s0 in
      let (k2, s2) = rand64 s1 in
      let (k3, s3) = rand64 s2 in
      (
        record {
          client_id = 0;
          key = record { key0 = k0; key1 = k1; key2 = k2; key3 = k3 };
          name = [];
          tag = [];
          click = 0;
          passwd = 0;
          t_addr = replicate 16 0;
        },
        record s { seed = s3 },
      )

  -- `newClock(pncr)` for the thread that calls a client.
  unfoldable pub wait_for : ℕ → SqeServer → SqeServer
  unfolding new_clock
  wait_for client_id s = record s {
    clocks =
        new_clock
          (record {
            func = client_wait_deamon;
            if_thread = true;
            if_reset = false;
            click = pos 64;
            rawclick = pos 0;
            arg = client_id;
          })
          s.clocks;
  }
