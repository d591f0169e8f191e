-- ===== src/Uart/Console.antt =====
-- What the guest prints: the bounded console log, the markers of a shutdown, and the host's stdout.
use Prim.Native.Char.{code}
use Prim.Native.String.{String}
use node_vmm.Prelude.{
  ℕ, zero, suc, ◌+◌, ◌-◌, min, Bool, true, false, not, ◌&&◌, ◌||◌, ltb, ◌==◌, ◌!=◌, if◌then◌else◌,
  List, [], ◌∷◌, ◌++◌, length, get_or, take,
}
use node_vmm.Uart.State.{Uart}
use node_vmm.Uart.Lines.{is_empty}

-- The bytes of a text in ASCII.
abbrev pub codes : String → List ℕ
codes String.[] = []
codes (String.◌∷◌ c s) = code c ∷ codes s

abbrev pub carriage_return : ℕ
carriage_return = 0x0d

abbrev pub line_feed : ℕ
line_feed = 0x0a

unfoldable pub normalize_crlf : List ℕ → ℕ → List ℕ × ℕ
normalize_crlf [] last_byte = ([], last_byte)
normalize_crlf (byte ∷ bytes) last_byte =
    let (normalized, last) = normalize_crlf bytes byte in
    (
      if byte == line_feed && last_byte != carriage_return
          then carriage_return ∷ (byte ∷ normalized)
          else byte ∷ normalized,
      last,
    )

unfoldable pub write_stdout : List ℕ → Uart → Uart
unfolding normalize_crlf
write_stdout bytes u =
    if is_empty bytes
    then u
    else (let (normalized, last) = normalize_crlf bytes u.last_stdout_byte in
        record u { last_stdout_byte = last; stdout = u.stdout ++ normalized })

-- The loop of `AdvanceMatch`; behind the last byte of the pattern stands the 0 that ends it.
unfoldable pub retreat : List ℕ → ℕ → ℕ → ℕ
retreat pattern zero byte = 0
retreat pattern (suc current) byte =
    let shorter = retreat pattern current byte in
    if byte != get_or pattern (suc current) 0 then shorter else suc current

unfoldable pub advance_match : List ℕ → ℕ → ℕ → ℕ
unfolding retreat
advance_match pattern current byte =
    let matched = retreat pattern current byte in
    let next : ℕ = if byte == get_or pattern matched 0 then matched + 1 else matched in
    if next == length pattern then length pattern else next

abbrev pub halted_text : List ℕ
halted_text = codes "reboot: System halted"

abbrev pub restarting_text : List ℕ
restarting_text = codes "Restarting system"

-- One marker over one byte: the match and whether the marker was seen.
unfoldable pub track_byte : List ℕ → ℕ → Bool → ℕ → ℕ × Bool
unfolding advance_match
track_byte pattern matched seen byte =
    if not seen
    then (let next = advance_match pattern matched byte in (next, next == length pattern))
    else (matched, seen)

unfoldable pub track_console_markers : List ℕ → Uart → Uart
unfolding track_byte
track_console_markers [] u = u
track_console_markers (byte ∷ bytes) u =
    let (halted_match, halted_seen) = track_byte halted_text u.halted_match u.halted_seen byte in
    let (restarting_match, restarting_seen) =
      track_byte restarting_text u.restarting_match u.restarting_seen byte in
    track_console_markers bytes (record u {
      halted_match = halted_match;
      halted_seen = halted_seen;
      restarting_match = restarting_match;
      restarting_seen = restarting_seen;
    })

unfoldable pub emit_tx : List ℕ → Uart → Uart
emit_tx bytes u =
    let tracked = track_console_markers bytes u in
    let available : ℕ =
      if ltb (length tracked.console) tracked.limit
      then tracked.limit - length tracked.console
      else 0 in
    let logged =
      if ltb 0 available
      then record tracked { console = tracked.console ++ take (min available (length bytes)) bytes }
      else tracked in
    if is_empty bytes then u else if logged.echo_stdout then write_stdout bytes logged else logged

abbrev pub is_prefix : List ℕ → List ℕ → Bool
is_prefix [] ys = true
is_prefix (x ∷ xs) [] = false
is_prefix (x ∷ xs) (y ∷ ys) = x == y && is_prefix xs ys

abbrev pub bytes_equal : List ℕ → List ℕ → Bool
bytes_equal [] [] = true
bytes_equal [] (y ∷ ys) = false
bytes_equal (x ∷ xs) [] = false
bytes_equal (x ∷ xs) (y ∷ ys) = x == y && bytes_equal xs ys

-- `text.find(needle) != npos`
unfoldable pub finds : List ℕ → List ℕ → Bool
finds needle [] = is_prefix needle []
finds needle (x ∷ text) = is_prefix needle (x ∷ text) || finds needle text

-- The two markers outlive the bound on the log; other texts are looked for in it.
unfoldable pub contains : List ℕ → Uart → Bool
unfolding finds
contains needle u =
    if bytes_equal needle halted_text
    then u.halted_seen
    else if bytes_equal needle restarting_text
    then u.restarting_seen
    else finds needle u.console
