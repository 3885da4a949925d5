-- ===== src/Protocol/Pack.antt =====
-- The wsu_pack_* functions of protocol/wsu_protocol.h. `none` is the -1 of a buffer too small or a
-- payload too long; otherwise the result is the datagram, the bytes written from the buffer's start.
use wii_sec_u.Base.{
  ℕ, ◌+◌, ◌*◌, ◌/◌, ◌-◌, ◌%◌, ◌^◌, ◌||◌, List, [], ◌∷◌, ◌++◌, Option, none, some, length, take, ltb,
  ◌==◌, if◌then◌else◌,
}
use wii_sec_u.Protocol.Wire.{put_u16, put_u32, put_i16}
use wii_sec_u.Protocol.Types.{
  proto_magic, proto_version, header_size, max_slice_payload, max_players, Hello, HelloAck, Config,
  VideoHeader, AudioHeader, InputState,
}
use wii_sec_u.Protocol.Pkt

-- wsu_pack_header
unfoldable pub header_bytes : ℕ → ℕ → List ℕ
header_bytes type seq = put_u32 proto_magic ++ (proto_version ∷ type ∷ put_u16 seq)

unfoldable pub pack_hello : ℕ → ℕ → Hello → Option (List ℕ)
unfolding header_bytes
pack_hello cap seq h =
    if ltb cap (header_size + 18)
    then none
    else some (header_bytes Pkt.hello seq ++ (h.role ∷ h.flags ∷ h.name))

unfoldable pub pack_hello_ack : ℕ → ℕ → HelloAck → Option (List ℕ)
unfolding header_bytes
pack_hello_ack cap seq a =
    if ltb cap (header_size + 2)
    then none
    else some (header_bytes Pkt.hello_ack seq ++ (a.status ∷ a.slot ∷ []))

-- The channel count and the flags are not written.
unfoldable pub config_bytes : Config → List ℕ
config_bytes c =
    put_u16 c.width
    ++ (put_u16 c.height
        ++ (c.fps ∷ c.video_codec ∷ c.quality ∷ c.audio_codec ∷ put_u16 c.audio_rate_hz))

unfoldable pub pack_config : ℕ → ℕ → Config → Option (List ℕ)
unfolding header_bytes config_bytes
pack_config cap seq c =
    if ltb cap (header_size + 10)
    then none
    else some (header_bytes Pkt.config seq ++ config_bytes c)

unfoldable pub video_bytes : VideoHeader → List ℕ
video_bytes v =
    put_u32 v.frame_id
    ++ (put_u32 v.timestamp_ms
        ++ (v.flags ∷ (put_u16 v.slice_index ++ (put_u16 v.slice_count ++ put_u16 v.payload_len))))

-- `payload` is the memory from the caller's pointer on; `payload_len` bytes of it are copied.
unfoldable pub pack_video : ℕ → ℕ → VideoHeader → List ℕ → Option (List ℕ)
unfolding header_bytes video_bytes
pack_video cap seq v payload =
    if ltb cap (header_size + 15 + v.payload_len) || ltb max_slice_payload v.payload_len
    then none
    else some (header_bytes Pkt.video seq ++ (video_bytes v ++ take v.payload_len payload))

-- wsu_video_slice_count: uint32_t arithmetic, cut to 16 bits.
unfoldable pub video_slice_count : ℕ → ℕ
video_slice_count frame_bytes =
    if frame_bytes == 0
    then 1
    else (frame_bytes + max_slice_payload - 1) % 2 ^ 32 / max_slice_payload % 2 ^ 16

unfoldable pub audio_bytes : AudioHeader → List ℕ
audio_bytes a = put_u32 a.timestamp_ms ++ put_u16 a.payload_len

unfoldable pub pack_audio : ℕ → ℕ → AudioHeader → List ℕ → Option (List ℕ)
unfolding header_bytes audio_bytes
pack_audio cap seq a payload =
    if ltb cap (header_size + 6 + a.payload_len) || ltb max_slice_payload a.payload_len
    then none
    else some (header_bytes Pkt.audio seq ++ (audio_bytes a ++ take a.payload_len payload))

-- wsu_write_input_state
unfoldable pub input_state_bytes : InputState → List ℕ
input_state_bytes s =
    s.slot
    ∷ s.flags
    ∷ (put_u32 s.buttons
        ++ (put_i16 s.lx
            ++ (put_i16 s.ly
                ++ (put_i16 s.rx
                    ++ (put_i16 s.ry
                        ++ (s.lt
                            ∷ s.rt
                            ∷ (put_u16 s.touch_x
                                ++ (put_u16 s.touch_y
                                    ++ (put_i16 s.gyro_pitch
                                        ++ (put_i16 s.gyro_yaw ++ put_i16 s.gyro_roll))))))))))

unfoldable pub pack_input : ℕ → ℕ → ℕ → InputState → Option (List ℕ)
unfolding header_bytes input_state_bytes
pack_input cap seq timestamp_ms s =
    if ltb cap (header_size + 4 + 26)
    then none
    else some (header_bytes Pkt.input seq ++ (put_u32 timestamp_ms ++ input_state_bytes s))

unfoldable pub input_states_bytes : List InputState → List ℕ
input_states_bytes [] = []
input_states_bytes (s ∷ states) = input_state_bytes s ++ input_states_bytes states

-- The list is `states[0..count)`.
unfoldable pub pack_input_bundle : ℕ → ℕ → ℕ → List InputState → Option (List ℕ)
pack_input_bundle cap seq timestamp_ms states =
    if ltb max_players count || ltb cap (header_size + 5 + count * 26)
    then none
    else some (
        header_bytes Pkt.input_bundle seq
        ++ (put_u32 timestamp_ms ++ (count ∷ input_states_bytes states)))
  where
    count : ℕ
    count = length states

unfoldable pub pack_rumble : ℕ → ℕ → ℕ → ℕ → Option (List ℕ)
unfolding header_bytes
pack_rumble cap seq slot intensity =
    if ltb cap (header_size + 2)
    then none
    else some (header_bytes Pkt.rumble seq ++ (slot ∷ intensity ∷ []))

-- wsu_pack_ping and wsu_pack_pong differ in the type only.
unfoldable pub pack_ping : ℕ → ℕ → ℕ → Option (List ℕ)
unfolding header_bytes
pack_ping cap seq timestamp_ms =
    if ltb cap (header_size + 4)
    then none
    else some (header_bytes Pkt.ping seq ++ put_u32 timestamp_ms)

unfoldable pub pack_pong : ℕ → ℕ → ℕ → Option (List ℕ)
unfolding header_bytes
pack_pong cap seq echo =
    if ltb cap (header_size + 4) then none else some (header_bytes Pkt.pong seq ++ put_u32 echo)

unfoldable pub pack_bye : ℕ → ℕ → ℕ → Option (List ℕ)
unfolding header_bytes
pack_bye cap seq reason =
    if ltb cap (header_size + 1) then none else some (header_bytes Pkt.bye seq ++ (reason ∷ []))

unfoldable pub pack_keyframe_req : ℕ → ℕ → Option (List ℕ)
unfolding header_bytes
pack_keyframe_req cap seq =
    if ltb cap header_size then none else some (header_bytes Pkt.keyframe_req seq)
