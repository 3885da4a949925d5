-- ===== src/Command.antt =====
-- pc/src/main.cpp: the command line. An argument is the list of its characters' codes; what is printed
-- and the running of the chosen program are left out.
pub mod Flags
use wii_sec_u.Base.{
  ℕ, zero, suc, ◌%◌, ◌^◌, ◌-◌, Bool, true, false, not, ◌&&◌, ◌||◌, List, [], ◌∷◌, Option, none,
  some, drop, ltb, leb, ◌==◌, if◌then◌else◌,
}
use wii_sec_u.Base.Text.{codes, same_text}
use wii_sec_u.Endpoint.{Endpoint}
use wii_sec_u.Endpoint.Text.{
  skip_space, read_signed, scan_format, Directive, number, exactly, parse_endpoint,
}

abbrev pub Args : Type 0
Args = List (List ℕ)

-- The loop of argValue from an argument on.
abbrev pub value_after : List ℕ → Args → Option (List ℕ)
value_after flag [] = none
value_after flag (a ∷ []) = none
value_after flag (a ∷ b ∷ rest) =
    let later = value_after flag (b ∷ rest) in if same_text a flag then some b else later

abbrev pub is_among : List ℕ → Args → Bool
is_among flag [] = false
is_among flag (a ∷ rest) = same_text a flag || is_among flag rest

unfoldable pub arg_value : Args → List ℕ → Option (List ℕ)
arg_value argv flag = value_after flag (drop 2 argv)

unfoldable pub arg_present : Args → List ℕ → Bool
arg_present argv flag = is_among flag (drop 2 argv)

-- The controller of a player; `no_input` is the null pointer.
pub data Backend : Type 0 where
  no_input neutral_input scripted_input sdl_input : Backend

-- `choice != nullptr ? choice : ""`
abbrev pub text_or_empty : Option (List ℕ) → List ℕ
text_or_empty none = []
text_or_empty (some t) = t

-- `sdl` is whether makeSdlBackend gives one.
unfoldable pub make_input : Bool → Option (List ℕ) → Backend
make_input sdl choice =
    let c = text_or_empty choice in
    if same_text c (codes "none")
    then no_input
    else if same_text c (codes "synthetic")
    then neutral_input
    else if same_text c (codes "scripted")
    then scripted_input
    else if same_text c (codes "sdl") || same_text c []
    then if sdl then sdl_input else if same_text c (codes "sdl") then no_input else neutral_input
    else no_input

pub data Sink : Type 0 where
  stats_sink sdl_sink : Sink

-- `display` is whether makeSdlDisplaySink gives one; `none` is the null pointer.
unfoldable pub make_sink : Bool → Option (List ℕ) → Bool → Option Sink
make_sink display choice prefer_display =
    let raw = text_or_empty choice in
    let c =
      if same_text raw []
      then if prefer_display then codes "sdl-auto" else codes "stats"
      else raw in
    if same_text c (codes "stats") || same_text c (codes "none")
    then some stats_sink
    else if same_text c (codes "sdl") || same_text c (codes "sdl-auto")
    then if display
      then some sdl_sink
      else if same_text c (codes "sdl")
      then none
      else some stats_sink
    else none

pub record HostCommand : Type 0 where
  pub console_addr : Endpoint
  pub listen_port : ℕ
  pub console_input_port : ℕ
  pub console_stream_port : ℕ
  pub host_input : Backend
  pub host_sink : Sink

pub record ClientCommand : Type 0 where
  pub host_addr : Endpoint
  pub player_name : List ℕ
  pub player_input : Backend
  pub player_sink : Sink

pub record SimCommand : Type 0 where
  pub input_port : ℕ
  pub stream_port : ℕ
  pub sim_width : ℕ
  pub sim_height : ℕ
  pub sim_fps : ℕ
  pub log_input : Bool

-- The exit code of a refusal, or the program that is run.
pub data Outcome : Type 0 where
  exits : ℕ → Outcome
  runs_host : HostCommand → Outcome
  runs_client : ClientCommand → Outcome
  runs_sim : SimCommand → Outcome

-- What SDL gives, and what becomes of a number that is too large for `int` or `unsigned`.
pub record Machine : Type 0 where
  pub has_sdl : Bool
  pub has_display : Bool
  pub fit : ℕ → ℕ

-- atoi, as the 32 bits of an `int`.
unfoldable pub atoi : (ℕ → ℕ) → List ℕ → ℕ
unfolding skip_space read_signed
atoi fit text = elim (read_signed fit (skip_space text)) [ none ↦ 0 | some (n, rest) ↦ n % 2 ^ 32 ]

-- `static_cast<uint16_t>(std::atoi(v))`, if the flag is there.
unfoldable pub port_arg : Machine → Args → List ℕ → ℕ → ℕ
unfolding arg_value atoi
port_arg m argv flag default_port = elim (arg_value argv flag) [
  | none ↦ default_port
  | some v ↦ atoi m.fit v % 2 ^ 16
]

unfoldable pub run_host : Machine → Args → Outcome
unfolding port_arg make_input make_sink
run_host m argv =
    let console : Endpoint = elim (arg_value argv (codes "--console")) [
      | none ↦ record { addr = 2 ^ 32 - 1; port = 1 }
      | some text ↦ parse_endpoint m.fit text 1
    ] in
    if console.port == 0
    then exits 2
    else elim (make_sink m.has_display (arg_value argv (codes "--display")) false) [
      | none ↦ exits 2
      | some sink ↦ runs_host (record {
        console_addr = console;
        listen_port = port_arg m argv (codes "--listen-port") 4405;
        console_input_port = port_arg m argv (codes "--console-input-port") 4404;
        console_stream_port = port_arg m argv (codes "--console-stream-port") 4406;
        host_input = make_input m.has_sdl (arg_value argv (codes "--input"));
        host_sink = sink;
      })
    ]

abbrev pub name_or_default : Option (List ℕ) → List ℕ
name_or_default none = codes "player"
name_or_default (some name) = name

unfoldable pub run_client : Machine → Args → Outcome
unfolding arg_value make_input make_sink
run_client m argv = elim (arg_value argv (codes "--host")) [
  | none ↦ exits 2
  | some text ↦
      let host = parse_endpoint m.fit text 4405 in
      if host.port == 0
      then exits 2
      else elim (make_sink m.has_display (arg_value argv (codes "--display")) true) [
        | none ↦ exits 2
        | some sink ↦ runs_client (record {
          host_addr = host;
          player_name = name_or_default (arg_value argv (codes "--name"));
          player_input = make_input m.has_sdl (arg_value argv (codes "--input"));
          player_sink = sink;
        })
      ]
]

-- `%ux%u` with both in range, or the default size.
abbrev pub size_in_range : List ℕ → ℕ × ℕ
size_in_range (w ∷ h ∷ rest) =
    if ltb 0 w && (ltb 0 h && (leb w 1920 && leb h 1080)) then (w, h) else (160, 90)
size_in_range [] = (160, 90)
size_in_range (w ∷ []) = (160, 90)

abbrev pub size_arg : Machine → Option (List ℕ) → ℕ × ℕ
size_arg m none = (160, 90)
size_arg m (some v) = size_in_range (scan_format m.fit (number ∷ exactly 120 ∷ number ∷ []) v)

-- An `int` from 1 to 60; a negative one is above them as 32 bits.
abbrev pub fps_arg : Machine → Option (List ℕ) → ℕ
fps_arg m none = 15
fps_arg m (some v) = let n = atoi m.fit v in if ltb 0 n && leb n 60 then n else 15

unfoldable pub run_console_sim : Machine → Args → Outcome
unfolding port_arg arg_present atoi scan_format
run_console_sim m argv =
    let (w, h) = size_arg m (arg_value argv (codes "--size")) in
    runs_sim (record {
      input_port = port_arg m argv (codes "--input-port") 4404;
      stream_port = port_arg m argv (codes "--stream-port") 4406;
      sim_width = w;
      sim_height = h;
      sim_fps = fps_arg m (arg_value argv (codes "--fps"));
      log_input = arg_present argv (codes "--log-input");
    })

abbrev pub help_or_refuse : List ℕ → Outcome
help_or_refuse mode =
    if same_text mode (codes "--help")
      || (same_text mode (codes "-h") || same_text mode (codes "help"))
    then exits 0
    else exits 2

-- main, but for the log level.
unfoldable pub main : Machine → Args → Outcome
unfolding run_host run_client run_console_sim
main m [] = exits 2
main m (program ∷ []) = exits 2
main m (program ∷ mode ∷ rest) =
    let argv : Args = program ∷ mode ∷ rest in
    if same_text mode (codes "host")
    then run_host m argv
    else if same_text mode (codes "client")
    then run_client m argv
    else if same_text mode (codes "console-sim")
    then run_console_sim m argv
    else help_or_refuse mode
