-- ===== src/Transport/Tests.antt =====
-- Runs of components/rns_transport_core/rns_transport_core.c, and the theorems at these inputs.
use meshpay_v.Base.{
  ◌≡◌, ◌≢◌, ◌↔◌, ◌⊎◌, ◌<◌, ◌||◌, refl, true, false, [], ◌∷◌, Bytes, replicate, zeros, esp_ok,
  invalid_arg, no_mem, bytes_zero, constant_equal,
}
use meshpay_v.Destination.{hash_equal}
use meshpay_v.Transport.{
  init, local_max, duplicate_seen, duplicate_remember, is_local_destination, add_local_destination,
}
use meshpay_v.Transport.Seen.{remember_all}
use meshpay_v.Transport.Local.{init-IsTable, add_local_destination_lem}

abbrev seen : Bytes
seen = replicate 32 7

abbrev other : Bytes
other = replicate 32 8

abbrev here : Bytes
here = replicate 16 9

transport_runs :
    (duplicate_seen init seen ≡ false)
    × (duplicate_seen (duplicate_remember init seen) seen ≡ true)
    × (duplicate_seen (duplicate_remember init seen) other ≡ false)
    × ((add_local_destination init (zeros 16)).1 ≡ invalid_arg)
    × ((add_local_destination (record init { local_destination_count = 8 }) here).1 ≡ no_mem)
    × (is_local_destination (add_local_destination init here).0 here ≡ true)
unfolding duplicate_seen duplicate_remember is_local_destination add_local_destination bytes_zero
    constant_equal hash_equal zeros
transport_runs = (refl, refl, refl, refl, refl, refl)

-- The 48th packet after it overwrites the hash.
forgotten :
    duplicate_seen (remember_all (duplicate_remember init seen) (replicate 48 other)) seen ≡ false
unfolding duplicate_seen duplicate_remember constant_equal
forgotten = refl

only_remembered : duplicate_seen (remember_all init (other ∷ seen ∷ [])) seen ≡ true
unfolding duplicate_seen duplicate_remember constant_equal
only_remembered = refl

add_local_destination_lem_example :
    ((((add_local_destination init here).1 ≡ esp_ok)
        ↔ ((bytes_zero here ≡ false) × ((is_local_destination init here ≡ true) ⊎ (0 < local_max))))
      × ((add_local_destination init here).1 ≢ esp_ok → (add_local_destination init here).0 ≡ init)
      × ((hash : Bytes)
          → (add_local_destination init here).1 ≡ esp_ok
          → is_local_destination (add_local_destination init here).0 hash
            ≡ (is_local_destination init hash || hash_equal here hash)))
add_local_destination_lem_example = add_local_destination_lem init here init-IsTable
