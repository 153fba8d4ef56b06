-- ===== src/Sockets/Tests.antt =====
-- A socket of the sample kernel, and a host that is found.
use pqnet.Common.{◌+◌, ◌*◌, ◌^◌, ◌≡◌, ◌≢◌, refl, true, some, [], ◌∷◌, arith, Option}
use pqnet.Endian.{little}
use pqnet.Http.Strings.{String}
use pqnet.Sockets.Address.{af_inet, HostEnt, port, ip_int, of_host, of_host_lem}
use pqnet.Sockets.Options.{set_keep_alive}
use pqnet.Sockets.Setting.{Setting, keep_alive, set, test, set-test}
use pqnet.Sockets.Sample.{sample, unset, sample-Documented}

set-test_example :
    ((test sample keep_alive 3 (set sample keep_alive 3 true unset).1).0 ≡ 1)
    × ((y : Setting)
        → keep_alive ≢ y
        → (test sample y 3 (set sample keep_alive 3 true unset).1).0 ≡ (test sample y 3 unset).0)
unfolding set_keep_alive
set-test_example = set-test sample sample-Documented keep_alive 3 true unset refl

abbrev localhost : String → Option HostEnt
localhost name = some (record { h_addrtype = af_inet; h_addr = 127 ∷ 0 ∷ 0 ∷ 1 ∷ [] })

of_host_lem_example :
    (port little (of_host little localhost [] 8080) ≡ 8080)
    × (ip_int little (of_host little localhost [] 8080) ≡ 2 ^ 24 * 127 + 2 ^ 16 * 0 + 2 ^ 8 * 0 + 1)
of_host_lem_example =
    of_host_lem little localhost [] 8080 127 0 0 1 refl (omega arith) (omega arith) (omega arith)
      (omega arith) (omega arith)
