-- ===== src/Placement/Validate.antt =====
-- es-server/src/config.rs: `Config::validate`, with es-proto's `normalize_endpoint`.
use eventfs.Prelude.{
  ℕ, ◌*◌, Bool, true, false, not, ◌&&◌, ◌||◌, Option, none, some, List, [], ◌∷◌, ◌++◌, Text,
  nat_ord, list_ord, ltb, leb, length, is_none, ◌==◌, if◌then◌else◌, ok, err, ◌>>◌,
}
use eventfs.Bytes.{Bytes}
use eventfs.Placement.{
  PeerConfig, NodeConfig, TlsConfig, Config, Checked, check, check_placement, bad_arena,
  no_snapshots, bad_event_limit, bad_chunk_size, bad_internal_listen_addr, same_listen_addr,
  bad_internal_addr, no_internal_listen_addr, no_internal_addr, unpaired_tls, unreadable_tls,
  empty_tls,
}

abbrev pub max_aggregate_event_bytes : ℕ
max_aggregate_event_bytes = 7 * 1024 * 1024

abbrev pub max_snapshot_chunk_bytes : ℕ
max_snapshot_chunk_bytes = 6 * 1024 * 1024

-- "http://", "https://"
abbrev pub http_scheme : Text
http_scheme = b'h' ∷ b't' ∷ b't' ∷ b'p' ∷ b':' ∷ b'/' ∷ b'/' ∷ []

abbrev pub https_scheme : Text
https_scheme = b'h' ∷ b't' ∷ b't' ∷ b'p' ∷ b's' ∷ b':' ∷ b'/' ∷ b'/' ∷ []

-- `str::starts_with`
unfoldable pub starts_with : Text → Text → Bool
starts_with [] text = true
starts_with (c ∷ cs) [] = false
starts_with (c ∷ cs) (d ∷ text) = c == d && starts_with cs text

unfoldable pub normalize_endpoint : Text → Text
unfolding starts_with
normalize_endpoint addr =
    if starts_with http_scheme addr || starts_with https_scheme addr
    then addr
    else http_scheme ++ addr

-- Parsing a socket address, building an endpoint, and reading a file
module _ (is_socket_addr is_endpoint : Text → Bool) (read : Text → Option Bytes) where
  abbrev pub check_file : Option Text → Checked (Unit {0})
  check_file none = ok tt
  check_file (some path) = elim (read path) [
    | none ↦ err unreadable_tls
    | some bytes ↦ check (length bytes == 0) empty_tls
  ]

  -- `TlsConfig::validate`
  unfoldable pub validate_tls : TlsConfig → Checked (Unit {0})
  validate_tls t = do
    check (is_none t.cert_file || is_none t.key_file) unpaired_tls
    check_file t.cert_file
    check_file t.key_file
    check_file t.ca_file

  unfoldable pub check_listen_addr : NodeConfig → Checked (Unit {0})
  check_listen_addr n = elim n.internal_listen_addr [
    | none ↦ ok tt
    | some addr ↦ do
      check (not (is_socket_addr addr)) bad_internal_listen_addr
      check (addr == n.listen_addr) same_listen_addr
  ]

  unfoldable pub check_peers : List PeerConfig → Checked (Unit {0})
  check_peers [] = ok tt
  check_peers (p ∷ peers) =
      let rest = check_peers peers in
      elim p.internal_addr [
        | none ↦ rest
        | some addr ↦ if is_endpoint (normalize_endpoint addr) then rest else err bad_internal_addr
      ]

  abbrev pub is_other : ℕ → PeerConfig → Bool
  is_other id p = not (p.id == id)

  unfoldable pub any_peer : (PeerConfig → Bool) → List PeerConfig → Bool
  any_peer p [] = false
  any_peer p (x ∷ xs) = p x || any_peer p xs

  unfoldable pub check_cluster : NodeConfig → Checked (Unit {0})
  unfolding any_peer
  check_cluster n =
      if any_peer (is_other n.id) n.peers
      then (check (is_none n.internal_listen_addr) no_internal_listen_addr
          >> check (any_peer (λ p. is_other n.id p && is_none p.internal_addr) n.peers)
              no_internal_addr)
      else ok tt

  unfoldable pub validate : Config → Checked (Unit {0})
  unfolding check_placement validate_tls check_listen_addr check_peers check_cluster
  validate c = do
    check_placement c
    check (not (leb 1048576 c.memtable_arena_bytes && leb c.memtable_arena_bytes 16777216))
        bad_arena
    check (c.keep == 0) no_snapshots
    check (c.max_event_bytes == 0 || ltb max_aggregate_event_bytes c.max_event_bytes)
        bad_event_limit
    check (c.max_chunk_size == 0 || ltb max_snapshot_chunk_bytes c.max_chunk_size) bad_chunk_size
    check_listen_addr c.node
    check_peers c.node.peers
    check_cluster c.node
    elim c.tls [ none ↦ ok tt | some t ↦ validate_tls t ]
