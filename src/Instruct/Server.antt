-- ===== src/Instruct/Server.antt =====
-- What `set server` of src/controller.cpp writes for an address and a port.
use net_cpp.Base.{
  ◌≢◌, ◌<◌, ◌^◌, Bool-cases, ◌⊎◌, inl, inr, ℕ, ◌≡◌, ◌≤◌, refl, sym, ap, subst, Bool, true, false,
  List, ◌∷◌, Bytes, codes, string_eq, length, ltb, ℤ, pos, ◌==◌, if◌then◌else◌, arith,
}
use net_cpp.Outcome.{Outcome, ok, reject, throws, fault}
use net_cpp.Number.{skip_space, decimal}
use net_cpp.Cpt.Arguments.{stream_int-decimal}
use net_cpp.Factory.Decode.{c_str}
use net_cpp.Instruct.Address.{check_valid_ip, IsDotted}
use net_cpp.Instruct.Dotted.{check_valid_ip_iff, skip_space-decimal}
use net_cpp.Instruct.Info.{
  InfoDb, failed, done, is_port, set_port, set_checked, set_main_server, set_target, set,
}

module _ (q : InfoDb) where
  open q use {Db, opens, count_client_info, set_server}

  -- A database that opens and has been initialised.
  abbrev pub IsReady : Db → Type 0
  IsReady db = (opens ≡ true) × ((count_client_info db == 0) ≡ false)

  -- An address and a port that can be set.
  abbrev pub IsAccepted : Bytes → ℕ → Type 0
  IsAccepted ip n = IsDotted (c_str ip) × (1 ≤ n) × (n ≤ 65535)

  -- Written and successful, or refused without a change.
  abbrev pub Settles : Bytes → ℕ → Db → Db × Outcome ℤ → Type 0
  Settles ip n db result =
      (IsAccepted ip n × (result ≡ (set_server (c_str ip) (pos n) db, ok (pos 0))))
      ⊎ ((¬ IsAccepted ip n) × (result.1 ≢ ok (pos 0)) × (result.0 ≡ db))

  set_port-decimal :
      (ip : Bytes) (n : ℕ) (db : Db)
      → n < 2 ^ 31
      → set_port q ip (decimal n) (skip_space (decimal n)) db
        ≡ (if is_port q (pos n) then done q (set_server (c_str ip) (pos n) db) else failed q db)
  unfolding set_port
  set_port-decimal ip n db small =
      let (c, cs, e) = skip_space-decimal n in
      rw e (
        ap (λ v. if is_port q v then done q (set_server (c_str ip) v db) else failed q db)
          (stream_int-decimal (pos 0) n small))

  set_port-Settles :
      (ip : Bytes) (n : ℕ) (db : Db)
      → n < 2 ^ 31
      → IsDotted (c_str ip)
      → Settles ip n db (set_port q ip (decimal n) (skip_space (decimal n)) db)
  set_port-Settles ip n db small d = elim (Bool-cases (is_port q (pos n))) [
    | inl e ↦
        let written : set_port q ip (decimal n) (skip_space (decimal n)) db
            ≡ done q (set_server (c_str ip) (pos n) db) =
          rw e at (set_port-decimal ip n db small) in
        inl ((d, ground (arith, e), ground (arith, e)), written)
    | inr e ↦
        let same : set_port q ip (decimal n) (skip_space (decimal n)) db ≡ failed q db =
          rw e at (set_port-decimal ip n db small) in
        inr (
          λ a. absurd (ground (arith, e, a.1, a.2)),
          λ z. cc (same, z),
          ap (λ (r : Db × Outcome ℤ). r.0) same,
        )
  ]

  set_checked-Settles :
      (ip : Bytes) (n : ℕ) (db : Db) (r : Outcome Bool)
      → n < 2 ^ 31
      → check_valid_ip ip ≡ r
      → Settles ip n db (set_checked q ip (decimal n) r db)
  unfolding set_checked
  set_checked-Settles ip n db (ok true) small e =
      set_port-Settles ip n db small ((check_valid_ip_iff ip).0 e)
  set_checked-Settles ip n db (ok false) small e =
      inr (λ a. cc (e, (check_valid_ip_iff ip).1 a.0), λ z. cc, refl)
  set_checked-Settles ip n db reject small e =
      inr (λ a. cc (e, (check_valid_ip_iff ip).1 a.0), λ z. cc, refl)
  set_checked-Settles ip n db (throws x) small e =
      inr (λ a. cc (e, (check_valid_ip_iff ip).1 a.0), λ z. cc, refl)
  set_checked-Settles ip n db fault small e =
      inr (λ a. cc (e, (check_valid_ip_iff ip).1 a.0), λ z. cc, refl)

  set-checked :
      (sha1 : Bytes → Bytes) (ip port : Bytes) (more : List Bytes) (db : Db)
      → IsReady db
      → set q sha1 (codes "server" ∷ ip ∷ port ∷ more) db
        ≡ set_checked q ip port (check_valid_ip ip) db
  unfolding set set_target set_main_server string_eq
  set-checked sha1 ip port more db (open_db, known) =
      let long : ltb (length (codes "server" ∷ ip ∷ port ∷ more)) 2 ≡ false = ground arith in
      rw (long, open_db, known) refl

  -- Where info.db opens and the client was initialised, `set server` with a number below 2^31 for
  -- the port writes the address and the port and succeeds, if the address is four numbers of at most
  -- 255 in decimal with dots between and the port is from 1 to 65535; otherwise it does not succeed
  -- and leaves the database as it was.
  pub set-server :
      (sha1 : Bytes → Bytes) (ip : Bytes) (n : ℕ) (more : List Bytes) (db : Db)
      → IsReady db
      → n < 2 ^ 31
      → Settles ip n db (set q sha1 (codes "server" ∷ ip ∷ decimal n ∷ more) db)
  set-server sha1 ip n more db ready small =
      subst (Settles ip n db) (sym (set-checked sha1 ip (decimal n) more db ready))
        (set_checked-Settles ip n db (check_valid_ip ip) small refl)
