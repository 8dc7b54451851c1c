-- ===== src/Core/Tests.antt =====
-- A server that answers one request, and short commands on one connection.
use rejig.Ascii.Stale.Updated.{dispatch-process_update_configuration}
use rejig.Core.Swallowing.{arriving-new_cmd, throwing}
use rejig.Items.Get.{item_get}
use rejig.Ascii.Reads.{texts_from, read_keys, process_read}
use rejig.Ascii.Arguments.{
  set_noreply_maybe, start, same_int, is_minus_one, check_config, rest_at, int32_at, configured,
  need_ntoken_valid,
}
use rejig.Core.Replied.{replied, handled}
use rejig.Core.Parse.{line_end, c_string, memchr, core_parse}
use rejig.Core.Drive.{
  core_read, remove_items, gives_back, core_reset_cmd_handler, arm, core_complete_nread, drive,
}
use rejig.Ascii.Dispatch.{process_update_configuration, process, dispatch}
use rejig.Prelude.{
  pos, ℕ, zero, suc, ◌+◌, ◌-◌, ◌*◌, true, false, ◌&&◌, Option, none, some, List, [], ◌∷◌, ◌++◌, ◌≡◌,
  refl, ◌==◌, leb, if◌then◌else◌, ℤ, pos, negsuc,
}
use rejig.Items.Coherent.{Coherent}
use rejig.Items.Coherent.Tests.{empty, empty-Initial}
use rejig.Ascii.{tokenize, token_max, tokenize_loop}
use rejig.Ascii.Numbers.{to_int32, ends_well, mc_strtol, Libc, Conversion}
use rejig.Ascii.Request.{strcmp, choose_arm, ReqType, codes, parse_type}
use rejig.Ascii.Server.{
  set_configuration_number, World, finish, lift, write, expect_some, pure, expect, gets, Response,
  done,
}
use rejig.Ascii.Names.{parse_type-name_of}
use rejig.Ascii.Stale.{is_refusal, Same}
use rejig.Ascii.Stale.Refused.{Says}
use rejig.Ascii.Stale.Dispatched.{dispatch-Stale, request_of}
use rejig.Core.{Conn, ConnState, Got, Sent}
use rejig.Core.Server.{set_conn, leave, enter, Server, Event, Serves, advance}
use rejig.Core.Kept.{Serves-Coherent}
use rejig.Core.Framing.{
  Plain, core_parse-line, drives, gives, reading, behind, joined, arriving,
  arriving-core_complete_nread,
}

-- Decimal digits, with a '-' before them or not.
digits : ℕ → List ℕ → ℕ × List ℕ
digits n [] = (n, [])
digits n (c ∷ str) =
    let rest = digits (n * 10 + (c - b'0')) str in
    if leb b'0' c && leb c b'9' then rest else (n, c ∷ str)

abbrev converted : {A : Type 0} → (ℕ → A) → ℕ × List ℕ → Conversion A
converted f r = record { erange = false; value = f r.0; rest = r.1 }

minus : ℕ → ℤ
minus zero = pos 0
minus (suc n) = negsuc n

signed : List ℕ → Conversion ℤ
unfolding digits minus
signed [] = converted pos (0, [])
signed (c ∷ str) =
    if c == b'-' then converted minus (digits 0 str) else converted pos (digits 0 (c ∷ str))

unsigned : List ℕ → Conversion ℕ
unfolding digits
unsigned str = converted (λ n. n) (digits 0 str)

abbrev libc : Libc
libc = record {
  strtol = signed;
  strtoll = signed;
  strtoul = unsigned;
  strtoull = unsigned;
  isspace = λ c. c == 32;
}

abbrev idle : Conn
idle = record {
  world = record {
    cache = empty;
    configuration_number = pos 2;
    req_type = ReqType.unknown;
    noreply = false;
    item = none;
    tid = [];
    lease_token = 0;
    rlbytes = pos 0;
    sbytes = pos 0;
  };
  state = ConnState.new_cmd;
  write_and_go = ConnState.new_cmd;
  rbuf = [];
  line = [];
  ilist = [];
}

-- `get` with the number 3, where the server's is 2.
abbrev stale : List ℕ
stale = codes "get 3 ab"

answered : Unit {0}
unfolding rejig.Ascii.Server.◌>>=◌ need_ntoken_valid gets expect pure configured int32_at rest_at
    expect_some check_config write process_read is_minus_one same_int
answered = tt

run : Unit {0}
unfolding signed unsigned digits minus mc_strtol ends_well to_int32 tokenize tokenize_loop
    parse_type choose_arm strcmp dispatch process answered
run = tt

stale-Says : Says libc (request_of stale) (pos 3)
unfolding run
stale-Says = record { token = record { val = 4; len = 1 }; second = refl; number = refl }

dispatch-Stale_example :
    (Same idle.world (record idle.world { req_type = ReqType.get }))
    × (is_refusal Response.fail ≡ true)
unfolding run
dispatch-Stale_example =
    dispatch-Stale libc stale (pos 3) idle.world (record idle.world { req_type = ReqType.get })
      (done Response.fail) refl stale-Says (record { given = refl; other = refl }) refl

parse_type-name_of_example :
    parse_type (codes "iqget 0 k") (tokenize (codes "iqget 0 k") token_max) ≡ ReqType.iqget
parse_type-name_of_example = parse_type-name_of ReqType.iqget (codes "0 k") refl

abbrev value_line : List ℕ
value_line = codes "ab" ++ 13 ∷ 10 ∷ []

arriving-core_complete_nread_example :
    drives libc (arriving ((97, []) ∷ (98, 13 ∷ 10 ∷ []) ∷ []) ++ gives [] ∷ []) (reading 4 idle)
    ≡ core_complete_nread (reading 0 (behind value_line idle))
unfolding joined
arriving-core_complete_nread_example =
    arriving-core_complete_nread libc ((97, []) ∷ (98, 13 ∷ 10 ∷ []) ∷ []) (gives []) idle

-- `version`
core_parse-line_example :
    core_parse libc (record idle { rbuf = codes "version" ++ 13 ∷ 10 ∷ codes "quit" })
    ≡ some (
        handled
          (done Response.version)
          (record idle.world { req_type = ReqType.version })
          (record idle { rbuf = codes "quit" }))
unfolding run Plain dispatch process
core_parse-line_example =
    core_parse-line libc idle 118 (codes "ersion") (codes "quit") (done Response.version)
      (record idle.world { req_type = ReqType.version })
      ((
        refl,
        (
          refl,
          (
            refl,
            (
              refl,
              (refl, (refl, (refl, (refl, (refl, (refl, (refl, (refl, (refl, (refl, tt)))))))))),
            ),
          ),
        ),
      ))
      refl

abbrev server : Server
server = record { cache = empty; configuration_number = pos 2; conns = λ i. idle }

abbrev after : Option Server → Server
after none = server
after (some s) = s

abbrev at_work : List ℕ → Event
at_work bytes =
    Event.round 0
      (record { got = Got.bytes bytes; sent = Sent.complete; updated = true; yields = false })

-- A command arrives: `get -1 k`, of a client that has no number.
abbrev arrived : List ℕ
arrived = codes "get -1 k" ++ 13 ∷ 10 ∷ []

rounds : Unit {0}
unfolding answered run advance drive arm core_reset_cmd_handler gives_back remove_items enter leave
    set_conn core_read core_parse memchr c_string line_end handled replied finish read_keys
    texts_from lift item_get
rounds = tt

waiting : Server
unfolding rounds
waiting = after (advance libc (at_work []) server)

ready : Server
unfolding rounds waiting
ready = after (advance libc (at_work []) waiting)

filled : Server
unfolding rounds ready waiting
filled = after (advance libc (at_work arrived) ready)

answering : Server
unfolding rounds filled ready waiting
answering = after (advance libc (at_work []) filled)

waiting-Serves : Serves libc waiting
unfolding rounds waiting
waiting-Serves = Serves.next (Serves.started {s = server} empty-Initial) (at_work []) refl

ready-Serves : Serves libc ready
unfolding rounds ready waiting
ready-Serves = Serves.next waiting-Serves (at_work []) refl

filled-Serves : Serves libc filled
unfolding rounds filled ready waiting
filled-Serves = Serves.next ready-Serves (at_work arrived) refl

answering-Serves : Serves libc answering
unfolding rounds answering filled ready waiting
answering-Serves = Serves.next filled-Serves (at_work []) refl

Serves-Coherent_example : Coherent answering.cache
Serves-Coherent_example = Serves-Coherent libc answering answering-Serves

-- It has sent the end of the answer, with no hit.
answering_mwrite : (answering.conns 0).state ≡ ConnState.mwrite
unfolding rounds answering filled ready waiting
answering_mwrite = refl

arriving-new_cmd_example :
    drives libc
      (gives [] ∷ (arriving ((98, 13 ∷ 10 ∷ []) ∷ []) ++ gives [] ∷ []))
      (throwing 4 (97 ∷ []) idle)
    ≡ some (record (throwing 0 [] idle) { state = ConnState.new_cmd })
unfolding joined
arriving-new_cmd_example =
    arriving-new_cmd libc 97 [] ((98, 13 ∷ 10 ∷ []) ∷ []) (gives []) (gives []) idle

abbrev update : List ℕ
update = codes "updateconf 3"

abbrev old : List ℕ
old = codes "get 2 ab"

abbrev updated : World
updated = record idle.world { req_type = ReqType.update_config; configuration_number = pos 3 }

abbrev refused : World
refused = record updated { req_type = ReqType.get }

update-Says : Says libc (request_of update) (pos 3)
unfolding run
update-Says = record { token = record { val = 11; len = 1 }; second = refl; number = refl }

old-Says : Says libc (request_of old) (pos 2)
unfolding run
old-Says = record { token = record { val = 4; len = 1 }; second = refl; number = refl }

dispatch-process_update_configuration_example :
    (updated.cache ≡ idle.world.cache) × (Same updated refused × (is_refusal Response.fail ≡ true))
unfolding run process_update_configuration start set_configuration_number set_noreply_maybe
dispatch-process_update_configuration_example =
    dispatch-process_update_configuration libc update old (pos 3) (pos 2) idle.world updated refused
      (done Response.fail) refl update-Says refl refl old-Says
      (record { given = refl; other = refl }) refl
