-- ===== src/Ipc/Uri/Tests.antt =====
-- The parser at concrete URIs.
use new_cpp.Prelude.{◌≡◌, refl, true, [], ◌∷◌, ◌++◌, map, arith}
use new_cpp.Prelude.Text.{codes, find_char, find_char_from, to_lower}
use new_cpp.Ipc.Uri.{
  parse, create, socket, consume_protocol, consume_host_and_port, consume_path,
  extract_host_and_port,
}
use new_cpp.Ipc.Uri.Hosts.{parse-host-port, parse-host-path, create-path}

parse-tcp : parse (codes "TCP://localhost:12347") ≡ record {
  protocol = codes "tcp";
  path = [];
  host = codes "localhost";
  port = codes "12347";
  valid = true;
}
unfolding parse consume_protocol consume_host_and_port consume_path extract_host_and_port find_char
    find_char_from
parse-tcp = refl

parse-host-port_example :
    parse (codes "TCP" ++ b':' ∷ b'/' ∷ b'/' ∷ (codes "localhost" ++ b':' ∷ codes "12347"))
    ≡ record {
      protocol = map to_lower (codes "TCP");
      path = [];
      host = codes "localhost";
      port = codes "12347";
      valid = true;
    }
parse-host-port_example =
    parse-host-port (codes "TCP") (codes "localhost") (codes "12347") (omega arith) (omega arith)
      (omega arith) (omega arith) refl

parse-host-path_example :
    parse (codes "tcp" ++ b':' ∷ b'/' ∷ b'/' ∷ (codes "host" ++ b'/' ∷ b'd' ∷ codes "ata"))
    ≡ record {
      protocol = map to_lower (codes "tcp");
      path = [];
      host = codes "host" ++ b'/' ∷ b'd' ∷ [];
      port = [];
      valid = true;
    }
parse-host-path_example =
    parse-host-path (codes "tcp") (codes "host") b'd' (codes "ata") (omega arith) (omega arith)
      (omega arith) (λ e. cc) (λ e. cc)

unix_path :
    create (codes "unix" ++ b':' ∷ b'/' ∷ b't' ∷ codes "mp/test")
    ≡ socket (b'/' ∷ b't' ∷ codes "mp/test")
unix_path = create-path b't' (codes "mp/test") (λ e. cc)
