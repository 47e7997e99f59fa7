-- ===== src/Json/Opts/Tests.antt =====
-- Runs of the protocol options.
use libbrowserid.Prelude.{◌≡◌, Option}
use libbrowserid.Status.{good}
use libbrowserid.Json.Model.{model, model-IsJansson, Value}
use libbrowserid.Json.Opts.{make_protocol_opts, parse_protocol_opts}
use libbrowserid.Json.Opts.RoundTrip.{parse-make_protocol_opts}

parse-make_protocol_opts_example :
    (opts : Option Value) × (make_protocol_opts model 0x0c ≡ good opts)
    × (parse_protocol_opts model opts 1 ≡ good 0x00900001)
parse-make_protocol_opts_example = parse-make_protocol_opts model model-IsJansson 0x0c 1
