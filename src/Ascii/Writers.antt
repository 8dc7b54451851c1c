-- ===== src/Ascii/Writers.antt =====
-- The bytes of answers: the writers of IQ-Twemcached/src/mc_ascii.c, which put them together for
-- the connection to send. A writer takes the bytes that follow its own.
use rejig.Prelude.{
  ℕ, ◌%◌, ◌^◌, Bool, Option, none, some, List, [], ◌∷◌, ◌++◌, length, if◌then◌else◌,
}
use rejig.Util.{print_uint64}
use rejig.Items.{Item}
use rejig.Items.Store.{item_cas}
use rejig.Ascii.Numbers.{to_uint64}
use rejig.Ascii.Request.{codes}
use rejig.Ascii.Server.{Response}

abbrev pub crlf : List ℕ → List ℕ
crlf rest = 13 ∷ 10 ∷ rest

-- `mc_snprintf` of " %u" for each number.
unfoldable pub suffix : List ℕ → List ℕ → List ℕ
unfolding print_uint64
suffix [] rest = rest
suffix (n ∷ ns) rest = 32 ∷ (print_uint64 n ++ suffix ns rest)

-- The cast of a configuration number to uint32_t.
abbrev pub config_of : Item → ℕ
config_of it = to_uint64 it.config_number % 2 ^ 32

abbrev pub flags_of : Item → ℕ
flags_of it = it.dataflags % 2 ^ 32

-- `item_data(it)` and CRLF.
abbrev pub data_of : Item → List ℕ → List ℕ
data_of it rest = it.value ++ crlf rest

abbrev pub end_line : List ℕ
end_line = codes "END" ++ crlf []

-- `asc_respond_get`
unfoldable pub respond_get : Bool → Item → List ℕ → List ℕ
unfolding suffix to_uint64
respond_get return_cas it rest =
    codes "VALUE "
    ++ (it.key
        ++ suffix
            (flags_of it
              ∷ length it.value
              ∷ (if return_cas then item_cas it else config_of it)
              ∷ [])
            (crlf (data_of it rest)))

-- What `asc_process_read` writes for the items that it found.
unfoldable pub get_answer : Bool → List Item → List ℕ
get_answer return_cas [] = end_line
get_answer return_cas (it ∷ its) = respond_get return_cas it (get_answer return_cas its)

-- `asc_write_novalue`
abbrev pub write_novalue : List ℕ
write_novalue = codes "NOVALUE " ++ suffix (0 ∷ []) (crlf end_line)

-- `asc_write_ciget_value` and `asc_write_iqget_value`
unfoldable pub write_ciget_value : Item → List ℕ
write_ciget_value it =
    codes "VALUE "
    ++ (it.key ++ suffix (flags_of it ∷ length it.value ∷ []) (crlf (data_of it end_line)))

unfoldable pub write_iqget_value : Item → List ℕ
write_iqget_value it =
    codes "VALUE "
    ++ (it.key
        ++ suffix (flags_of it ∷ it.p % 2 ^ 8 ∷ length it.value ∷ config_of it ∷ [])
            (crlf (data_of it end_line)))

-- `asc_write_ciget_lease` and `asc_write_iqget_lease`
unfoldable pub write_ciget_lease : Item → ℕ → List ℕ
write_ciget_lease it new_lease_token =
    codes "LVALUE " ++ (it.key ++ suffix (flags_of it ∷ new_lease_token ∷ []) (crlf end_line))

unfoldable pub write_iqget_lease : Item → ℕ → List ℕ
write_iqget_lease it new_lease_token =
    codes "LVALUE "
    ++ (it.key ++ suffix (flags_of it ∷ it.p % 2 ^ 8 ∷ new_lease_token ∷ []) (crlf end_line))

-- `asc_write_qaread`
unfoldable pub write_qaread : Option Item → List ℕ → ℕ → ℕ → List ℕ
write_qaread none key lease_token p =
    codes "LVALUE " ++ (key ++ suffix (0 ∷ p % 2 ^ 8 ∷ lease_token ∷ []) (crlf (crlf end_line)))
write_qaread (some it) key lease_token p =
    codes "LEASE "
    ++ (key
        ++ suffix (flags_of it ∷ p % 2 ^ 8 ∷ lease_token ∷ length it.value ∷ [])
            (crlf (data_of it end_line)))

-- `asc_write_oqread`
unfoldable pub write_oqread : Option Item → List ℕ → List ℕ
write_oqread none key = codes "NOVALUE " ++ (key ++ suffix (0 ∷ []) (crlf (crlf end_line)))
write_oqread (some it) key =
    codes "VALUE "
    ++ (key ++ suffix (flags_of it ∷ length it.value ∷ []) (crlf (data_of it end_line)))

-- `asc_write_ok_pending`, `asc_write_ok_novalue_pending` and `asc_write_ok_val`
unfoldable pub write_ok_pending : ℕ → ℕ → List ℕ
write_ok_pending pending lease_token =
    codes "OK" ++ suffix (pending % 2 ^ 8 ∷ lease_token ∷ []) (crlf [])

unfoldable pub write_ok_novalue_pending : ℕ → ℕ → List ℕ
write_ok_novalue_pending pending lease_token =
    codes "OK_NOVALUE" ++ suffix (pending % 2 ^ 8 ∷ lease_token ∷ []) (crlf [])

unfoldable pub write_ok_val : ℕ → List ℕ
write_ok_val val = codes "VALUE" ++ suffix (val ∷ []) (crlf [])

-- `asc_write_q_inv_leasehold`
unfoldable pub write_q_inv_leasehold : ℕ → List ℕ
write_q_inv_leasehold marked = codes "LEASE" ++ suffix (marked % 2 ^ 8 ∷ []) (crlf [])

-- The texts of `asc_write_string` that have no parts; that of `version` comes from the build.
abbrev pub string_of : Response → Option (List ℕ)
string_of Response.fail = some (codes "FAIL")
string_of Response.abort = some (codes "ABORT")
string_of Response.stored = some (codes "STORED")
string_of Response.exists = some (codes "EXISTS")
string_of Response.not_found = some (codes "NOT_FOUND")
string_of Response.not_stored = some (codes "NOT_STORED")
string_of Response.deleted = some (codes "DELETED")
string_of Response.invalid = some (codes "INVALID")
string_of Response.client_error = some (codes "CLIENT_ERROR")
string_of Response.server_error = some (codes "SERVER_ERROR")
string_of Response.ok = some (codes "OK")
string_of Response.ok_novalue = some (codes "OK_NOVALUE")
string_of Response.retry = some (codes "RETRY")
string_of _ = none
