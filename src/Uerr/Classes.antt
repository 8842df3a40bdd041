-- ===== src/Uerr/Classes.antt =====
-- internal/uerr/uerr.go: the classes are told apart by their numbers.
use beautiful_aerc.Prelude.{ℕ, true, ◌==◌, nat_eq, ==→≡, if◌then◌else◌, ◌≡◌, refl, sym, ap, ◌∙◌}
use beautiful_aerc.Uerr.{
  Class, auth, auth_refresh_failed, not_found, connection, server, throttled, schema_version,
  store_local, instance_locked, local_io, same_class, class_index,
}

abbrev class_at : ℕ → Class
class_at n =
    if n == 0
    then auth
    else if n == 1
    then auth_refresh_failed
    else if n == 2
    then not_found
    else if n == 3
    then connection
    else if n == 4
    then server
    else if n == 5
    then throttled
    else if n == 6
    then schema_version
    else if n == 7
    then store_local
    else if n == 8
    then instance_locked
    else local_io

class_at-class_index : (c : Class) → class_at (class_index c) ≡ c
class_at-class_index auth = refl
class_at-class_index auth_refresh_failed = refl
class_at-class_index not_found = refl
class_at-class_index connection = refl
class_at-class_index server = refl
class_at-class_index throttled = refl
class_at-class_index schema_version = refl
class_at-class_index store_local = refl
class_at-class_index instance_locked = refl
class_at-class_index local_io = refl

pub same_class→≡ : (c d : Class) → same_class c d ≡ true → c ≡ d
same_class→≡ c d h =
    sym (class_at-class_index c)
    ∙ ap class_at (==→≡ (class_index c) (class_index d) h)
    ∙ class_at-class_index d
