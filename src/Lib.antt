-- ===== src/Lib.antt =====
-- Verification of qlvgm, which packs a VGM song for the Sinclair QL.
--
-- The program reads a VGM file (src/runtime.c), parses its YM2203 writes and batches them into
-- frames, at the clock of the target if asked (src/vgm.c), compresses the frames (src/qlz.c) and
-- puts the result and the player into a file or a QLAY image (src/output.c, src/qlay.c), as
-- src/cli.c says. The files here model the parts that compute:
--   Prelude: shared names, lists over the native numbers, 8 to 64-bit wrap-around, `Result` for
--     a call that may stop with an error, bits.
--   Buffer: src/runtime.c, `byte_buffer` and its appends, `read_le16` and `read_le32`.
--   Qlz: src/qlz.c. Match is `qlz_insert_position` to `qlz_choose_match`, Write is
--     `qlz_write_literals` and `qlz_write_match`, Compress is `qlz_compress_payload`, Stream is
--     `qlz_stream_create`, Decode is `qlz_decode`. Format says what a packet means, apart
--     from the code, for the writers and for the decoder.
--   Vgm: src/vgm.c. Song is `vgm_add_write` and `vgm_add_samples`, Parse is `vgm_parse`, Converter
--     is `converter_write` and what it calls, Convert is `convert_segment` and `vgm_convert`. Played
--     reads the frame stream apart and plays it, apart from the code.
--   Qlay: src/qlay.c. Bytes is arrays by their indices, which stand for the arrays of C. Sector is
--     `qlay_checksum` and `qlay_encode_sector`. Image is the map, the directory and the payloads
--     of `qlay_render_image`, and `qlay_image_fits`. Output is `qlay_output_begin` to
--     `qlay_output_finish`. Create is the loop over the sectors and `qlay_write_image`. Medium is
--     `qlay_medium_name`, RandomId is `qlay_random_id`.
--   Os: the system that src/runtime.c, src/output.c and src/qlay.c call, as a parameter.
--   Runtime: src/runtime.c, `read_file`. Its Process is `run_process` and
--     `executable_relative_path`.
--   Program: src/output.c, the text that `write_player_source` writes, and `make_boot`.
--   Assemble: src/output.c, `temporary_paths_create` and `temporary_paths_clean`, and the calls of
--     `write_player_source`.
--   Cli: src/cli.c, the command line of `cli_main`, with `option_value` and `parse_u32`. Its Main is
--     `cli_main` as a whole, with the exit codes.
--   Package: `create_image` of src/output.c, and what `cli_main` of src/cli.c calls from the bytes
--     of the input on.
-- How the parts meet: Package runs the parts one after the other. A song of Parse is what Convert
-- takes, and Vgm/Parse/Whole describes it for both. The writers of Qlz go through the appends of
-- Buffer, of which Buffer/Writes gives one description, failures included. The options of Cli are
-- in the ranges that Qlay/Create asks for. Runtime, Assemble, Qlay/Output and Qlay/RandomId make their
-- calls on the same `Os`, and Os/Plain says which of them leave the files of the user alone.
--
-- State is a record that each operation takes and returns. A pointer with a size is a list;
-- `byte_buffer` keeps its list beside `size`, `capacity` and `failed`. `malloc`, `calloc` and
-- `realloc` are a parameter `grants`, which says whether a request of so many bytes is given. It
-- may refuse any, unless a theorem says otherwise. Texts of `error_set` are constructors of error
-- types, with the numbers that they show.
--
-- The system is a parameter too. A call adds itself to the history of calls, and the answer to it is
-- any function of the history, so a theorem holds for short writes, signals and failures at every
-- point. What was written to a file, and whether a file was put in the place of another, is read off
-- the history. `strtoull` is a parameter of Cli. Numbers are printed as `printf` prints them.
--
-- Loops have fuel. `buffer_reserve` doubles a capacity of at least 1 at most 32 times. The loops
-- over literals, over the parts of a match and over the input have a round for each byte, which
-- each round uses up. The decoder has a round for each byte of the payload and one more, and
-- `vgm_parse` one for each byte of commands: `out_of_rounds` is the answer of a loop that would
-- not end. The loops over `read`, `write` and `waitpid` have as many rounds as an argument says, since a
-- signal may interrupt a call any number of times; more rounds than the bytes of the buffer and
-- the signals are enough. 32-bit arithmetic wraps around; the 64-bit products of the converter
-- stay below 2 ^ 52 for a 32-bit clock, and are written with no wrap-around.
--
-- Not modelled: the texts of messages, and what src/cli.c prints when an image is created; the side of
-- the child in `run_process`, which is the system's, like the assembler that it executes and the
-- file that this leaves; the build and test programs and the player in assembly. `free` has no effect
-- on what is computed.
pub mod Assemble
pub mod Buffer
pub mod Cli
pub mod Os
pub mod Package
pub mod Prelude
pub mod Program
pub mod Qlay
pub mod Qlz
pub mod Runtime
pub mod Vgm
