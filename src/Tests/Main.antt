-- ===== src/Tests/Main.antt =====
-- main.c, the responses of sl_fcgi.c and the lines of sl_log.c at concrete values.
use cpp_the_right_way.Base.{
  ◌%◌, ◌^◌, ℕ, none, some, List, [], ◌∷◌, ◌≡◌, refl, arith, true, ◌⊎◌, ◌||◌, if◌then◌else◌, ltb,
  leb, length, take, replicate,
}
use cpp_the_right_way.Run.{ok, failed, Safe, Partly}
use cpp_the_right_way.Arena.{Store, pow2_size}
use cpp_the_right_way.Strings.{SlString, contents, string, format_buffer}
use cpp_the_right_way.Strings.Fits
use cpp_the_right_way.Strings.Append.{IsString}
use cpp_the_right_way.Log.{Log, Environment, cstring, write_buffer, max_message_length, level_max}
use cpp_the_right_way.Log.Message.{write_format, logged, write_format-line_text}
use cpp_the_right_way.Log.Written.{line_text, write_buffer-line_text}
use cpp_the_right_way.Fcgi.Parser.State
use cpp_the_right_way.Fcgi.Request
use cpp_the_right_way.Fcgi.Response.{Response}
use cpp_the_right_way.Fcgi.Response
use cpp_the_right_way.Fcgi.Response.Text.{AllLines}
use cpp_the_right_way.Fcgi.Response.Process.{process-response_text}
use cpp_the_right_way.Main.Reply.{
  Writev, response_octets, send_response, execute, stdout_type, end_type, end_message,
}
use cpp_the_right_way.Main.Records.{
  read_records, read_records-response_octets, IsWritev, reply_records, send_response-read_records,
}
use cpp_the_right_way.Main.Execute.{reply_text, execute-reply_text}
use cpp_the_right_way.Main.Loop.{parse_buffer}
use cpp_the_right_way.Main.Loop.Rounds.{Ends, parse_buffer-Ends}
use cpp_the_right_way.Main.Connection.{process_connection}
use cpp_the_right_way.Main.Connection.Settled.{Concluded, process_connection-Settled}
use cpp_the_right_way.Main.ProcessName
use cpp_the_right_way.Main.ProcessName.{
  set_process_name, texts_size, set_process_name-Fits, set_process_name_overflows,
}
use cpp_the_right_way.Tests.Platform.{machine, new_store}
use cpp_the_right_way.Tests.Strings.{two_letters, two_letters-IsString}
use cpp_the_right_way.Tests.Net.{system, connection}

-- Everything is taken.
abbrev pub sends_all : Writev
sends_all octets = some (length octets)

pub sends_all-IsWritev : IsWritev sends_all
sends_all-IsWritev octets n e = let same : length octets ≡ n = cc in omega (arith, same)

-- A begin record with number 7, a first record of parameters without content, and two octets more.
abbrev octets : List ℕ
octets =
    1 ∷ 1 ∷ 0 ∷ 7 ∷ 0 ∷ 8 ∷ 0 ∷ 0 ∷ 0 ∷ 1 ∷ 0 ∷ 0 ∷ 0 ∷ 0 ∷ 0 ∷ 0 ∷ 1 ∷ 4 ∷ 0 ∷ 7 ∷ 0 ∷ 0 ∷ 0 ∷ 0
    ∷ 1 ∷ 5 ∷ []

parse_buffer-Ends_example :
    Partly (parse_buffer machine sends_all (Request.init 64) State.init octets new_store) Ends
parse_buffer-Ends_example =
    parse_buffer-Ends machine sends_all (Request.init 64) State.init octets new_store
      sends_all-IsWritev (omega arith)

process_connection-Settled_example :
    Partly
      (process_connection machine sends_all system connection (some octets ∷ none ∷ []) new_store)
      (Concluded machine sends_all connection (some octets ∷ none ∷ []) new_store)
process_connection-Settled_example =
    process_connection-Settled machine sends_all system connection (some octets ∷ none ∷ [])
      new_store sends_all-IsWritev (omega arith, tt)

read_records-response_octets_example :
    read_records 3 (response_octets 7 (79 ∷ 75 ∷ []) 2)
    ≡ some (
        record { type = stdout_type; request_id = 7; content = 79 ∷ 75 ∷ [] }
        ∷ record { type = stdout_type; request_id = 7; content = [] }
        ∷ record { type = end_type; request_id = 7; content = end_message }
        ∷ [])
read_records-response_octets_example =
    read_records-response_octets 7 (79 ∷ 75 ∷ []) (omega arith) (omega arith)

send_response-read_records_example :
    (octets : List ℕ) × (read_records 3 octets
      ≡ some (reply_records 0 (take (2 % 2 ^ 16) (contents two_letters))))
    × (((sends_all octets ≡ none)
          × (send_response machine sends_all (Request.init 64) two_letters new_store
              ≡ failed new_store))
        ⊎ ((sent : ℕ) × (s' : Store) × (sends_all octets ≡ some sent)
            × (send_response machine sends_all (Request.init 64) two_letters new_store
                ≡ ok octets s')))
unfolding Request.init
send_response-read_records_example =
    send_response-read_records machine sends_all (Request.init 64) two_letters new_store
      two_letters-IsString sends_all-IsWritev (omega arith)

execute-reply_text_example :
    Safe
      (execute machine sends_all (Request.init 64) new_store)
      (λ octets s'. octets ≡ response_octets 0 reply_text (length reply_text))
unfolding Request.init
execute-reply_text_example =
    execute-reply_text machine sends_all (Request.init 64) new_store sends_all-IsWritev

-- One header "ab: ab", and the output "ab"
abbrev small_response : Response
small_response = record {
  headers = record {
    buckets = (record { key = two_letters; value = some two_letters; hash = 0 } ∷ []) ∷ [];
    resize = true;
    preallocate = 1;
    size = 1;
    count = 1;
    resizes = 0;
    wasted = 0;
  };
  stdout = two_letters;
}

small_response-AllLines :
    AllLines (record { key = two_letters; value = some two_letters; hash = 0 } ∷ [])
small_response-AllLines = (
  record {
    key = two_letters-IsString;
    value = two_letters-IsString;
    fits = record {
      name_room = omega arith;
      value_room = omega arith;
      name_small = omega arith;
      value_small = omega arith;
      short = omega arith;
    };
  },
  tt,
)

process-response_text_example : Safe (Response.process machine small_response new_store) (λ t s'.
    IsString t × (contents t ≡ 97 ∷ 98 ∷ 58 ∷ 32 ∷ 97 ∷ 98 ∷ 13 ∷ 10 ∷ 13 ∷ 10 ∷ 97 ∷ 98 ∷ []))
unfolding mathlib.Core.List.flatten
process-response_text_example =
    process-response_text machine small_response new_store small_response-AllLines
      two_letters-IsString (omega arith)

abbrev environment : Environment
environment = record { date = 100 ∷ 32 ∷ []; errno = 9; strerror = λ n. 98 ∷ 97 ∷ 100 ∷ [] }

abbrev some_log : Log
some_log = record {
  min_level = 1;
  log_fd = 1;
  pid = 52 ∷ 50 ∷ replicate 9 0;
  ip_address = replicate 16 0;
  ip_port = replicate 6 0;
}

write_buffer-line_text_example :
    write_buffer environment some_log 2 (79 ∷ 75 ∷ [])
    ≡ some (
        if ltb 2 1 || leb level_max 2
        then none
        else some
            (take max_message_length (line_text environment 2 (52 ∷ 50 ∷ []) [] [] (79 ∷ 75 ∷ []))))
unfolding cstring
write_buffer-line_text_example =
    write_buffer-line_text environment some_log 2 (79 ∷ 75 ∷ []) (52 ∷ 50 ∷ []) [] [] refl refl refl

-- "a%Sb" with "ab"
-- "a%Sb", and what a call with the argument "ab" writes.
abbrev letters_format : List ℕ
letters_format = 97 ∷ b'%' ∷ b'S' ∷ 98 ∷ []

write_format-line_text_example :
    (s' : Store) × (((t : SlString) × (format_buffer machine letters_format
            (string (some two_letters) ∷ [])
            new_store
          ≡ ok t s')
        × (write_format machine environment some_log 2 letters_format
              (string (some two_letters) ∷ [])
              new_store
            ≡ ok (logged environment some_log 2 (52 ∷ 50 ∷ []) [] [] (97 ∷ 97 ∷ 98 ∷ 98 ∷ [])) s'))
      ⊎ ((format_buffer machine letters_format (string (some two_letters) ∷ []) new_store
            ≡ failed s')
          × (write_format machine environment some_log 2 letters_format
                (string (some two_letters) ∷ [])
                new_store
              ≡ ok (logged environment some_log 2 (52 ∷ 50 ∷ []) [] [] letters_format) s')))
unfolding pow2_size cstring
write_format-line_text_example =
    write_format-line_text machine environment some_log 2 letters_format
      (string (some two_letters) ∷ []) (97 ∷ 97 ∷ 98 ∷ 98 ∷ []) (52 ∷ 50 ∷ []) [] [] new_store refl
      refl refl (omega arith) (omega arith)
      (Fits.literal (omega arith) (omega arith) (omega arith) (
        Fits.string_next two_letters two_letters-IsString (omega arith)
          (Fits.literal (omega arith) (omega arith) (omega arith) Fits.nothing_left)))

-- The argument "ab", the environment "A=1", "B=2", and what argv[0] points into.
abbrev argument : List ℕ
argument = 97 ∷ 98 ∷ []

abbrev variables : List (List ℕ)
variables = (65 ∷ 61 ∷ 49 ∷ []) ∷ (66 ∷ 61 ∷ 50 ∷ []) ∷ []

abbrev process_memory : List ℕ
process_memory = 97 ∷ 98 ∷ 0 ∷ 65 ∷ 61 ∷ 49 ∷ 0 ∷ 66 ∷ 61 ∷ 50 ∷ 0 ∷ []

set_process_name-Fits_example :
    (memory' : List ℕ) × (set_process_name
        (argument ∷ [])
        variables
        (replicate 6 120)
        process_memory
      ≡ some memory')
    × ((memory' ≡ process_memory) ⊎ (cstring memory' ≡ some (replicate 6 120)))
unfolding texts_size ProcessName.first_length
set_process_name-Fits_example =
    set_process_name-Fits argument [] variables (replicate 6 120) process_memory (ground arith)
      (ground arith) (omega arith) (omega arith) (omega arith)

-- The environment "A=1234", "B=", "C=", and what argv[0] points into.
abbrev uneven : List (List ℕ)
uneven = (65 ∷ 61 ∷ 49 ∷ 50 ∷ 51 ∷ 52 ∷ []) ∷ (66 ∷ 61 ∷ []) ∷ (67 ∷ 61 ∷ []) ∷ []

abbrev uneven_memory : List ℕ
uneven_memory = 97 ∷ 98 ∷ 0 ∷ 65 ∷ 61 ∷ 49 ∷ 50 ∷ 51 ∷ 52 ∷ 0 ∷ 66 ∷ 61 ∷ 0 ∷ 67 ∷ 61 ∷ 0 ∷ []

set_process_name_overflows_example :
    set_process_name (argument ∷ []) uneven (replicate 19 120) uneven_memory ≡ none
unfolding ProcessName.first_length
set_process_name_overflows_example =
    set_process_name_overflows argument [] uneven (replicate 19 120) uneven_memory (omega arith)
      (omega arith) (omega arith)
