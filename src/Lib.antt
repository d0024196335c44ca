-- ===== src/Lib.antt =====
-- gcli, a command line client for git forges (GitHub, GitLab, Gitea, Bugzilla).
--
-- A command parses its arguments, asks a forge over HTTP, and prints the answer as a table. The
-- library below src/ builds requests (JSON bodies by json_gen.c, URLs by curl.c) and reads the
-- answers; the commands below src/cmd/ print them (table.c, colour.c).
--
-- Which file models what. A C string is the list of its bytes before the NUL, and an output
-- parameter is part of the result. A row of a diff is an `int` that wraps around; the length of a cell
-- of a table is cut to an `int` as strlen is there.
--   Base64: src/base64.c. `decode` is `gcli_decode_base64`, with `err` for its -1 and `fault` for a
--     write outside the buffer; `decode_print` is what `gcli_base64_decode_print` writes.
--   Json.Escape: `gcli_json_escape` of src/json_util.c.
--   Json.Gen: src/json_gen.c, `gcli_jsongen_x` as `x`; a state and a Boolean for 0 and -1. The loop
--     that grows the buffer runs on fuel, as many rounds as bytes are asked for: each round adds one
--     at least. Json.Gen.Document has the documents, the calls for one and its text.
--   Json.Stream: the token stream of pdjson, as a record of operations and laws. Json.Readers: the
--     readers of src/json_util.c, `get_x_` as `get_x`; a number that does not fit its type is a `fault`.
--     The loops over members run on fuel, a round more than there are members.
--   NvList: src/nvlist.c.
--   Colour: src/cmd/colour.c; the cache is a list beside the size of the static array.
--   Table: the tables of src/cmd/table.c, `gcli_tbl_x` as `x`; the escape sequences of colour.c enter
--     Table.Dump as a record.
--   UrlEncode: `gcli_urlencode_sv` of src/curl.c.
--   Fetch: a request of src/curl.c, with what libcurl answers as an `Answer` and the functions of sn as
--     a record. `link_loop` runs on fuel, a round more than there are bytes. Fetch.Link has the link
--     headers and the laws of sn; Fetch.Pages is `gcli_fetch_list`, with its URLs as allocations and
--     a round of fuel for each page.
--   Requests: what src/github and src/gitlab hand to `gcli_fetch_with_method`, `github_x` and `gitlab_x`
--     as `x`. The body is what the generator of Json.Gen writes, its results ignored as there. In each,
--     Operations has the documents and paths asked for, Paths and Bodies compare the requests with them.
--     Requests.Pulls is src/github/pulls.c, Requests.Gitea is src/gitea/issues.c and pulls.c; whether a
--     request succeeds, and what the generated parser finds in an answer, are arguments there.
--   Diff.Lines, Diff.Ranges, Diff.Hunks: the lines, hunk headers and hunk bodies that the parser of
--     src/diffutil.c reads, and its loop over hunks; a pointer into the buffer is the text from
--     there on. The loops run on fuel, a round more than there are bytes.
--   Diff.Headers: the lines in front of the hunks of a diff; Written has them as git writes them.
--   Diff.Patches: gcli_parse_diff, gcli_parse_patch and gcli_parse_patch_series, whose loops run on
--     fuel likewise. Written has patch series as git format-patch writes them.
--   Diff.Review: `extract_patch_comments` of src/cmd/pull_reviews.c, which joins the parser and the
--     extraction of comments; its loop runs on fuel, a round more than there are bytes.
--   Diff.Comments: the comment extraction of src/diffutil.c. The scans run on fuel, a round more than
--     there are bytes, and `stuck` is what running out would give.
--     Annotated has hunks with comments between the lines; Series the comments of such a patch series.
--   Diff.Trailer: the removal of the trailer of a patch in src/diffutil.c; the search runs on fuel,
--     a round more than there are bytes.
--   Dict: the dictionaries of src/cmd/table.c, `gcli_dict_x` as `x`.
--   Actions: src/cmd/actions.c, as the list of what happens; the loop runs on fuel, a round for each
--     argument.
--   Subcommands: the lookup of subcommands and aliases of src/cmd/gcli.c.
--   Decimal, Strtol, CString: the printf conversions, strtol and strtoul, and the functions of string.h
--     and ctype.h that these files use.
--
-- Not modelled: allocations that fail; strings of 2 ^ 31 bytes or more in the JSON generator, for which
-- vsnprintf answers -1; input and output, which carry most of src/cmd (option parsing by
-- getopt, the editor, prompts, printing), the configuration files and src/waitproc.c; the
-- vendored libraries sn and pdjson below thirdparty/, and libcurl, whose functions are arguments where a
-- model uses them; dates, which strptime, mktime and strftime of the C library make; the table of forges,
-- which only calls through pointers; the parsers that pgen writes from templates/ at build time, and with
-- them the fetching of lists and the Bugzilla back end, which hardly do more than call those; pgen, a
-- yacc grammar that prints C; in the back ends, the merge of pull requests on GitHub, the creation,
-- the merge and the discussions of merge requests on GitLab, and the requests on releases, milestones,
-- gists, forks, repositories and pipelines, which build bodies and URLs with the same functions.
pub mod Prelude
pub mod Decimal
pub mod CString
pub mod Strtol
pub mod NvList
pub mod Base64
pub mod Json
pub mod Colour
pub mod Table
pub mod UrlEncode
pub mod Fetch
pub mod Requests
pub mod Diff
pub mod Dict
pub mod Subcommands
pub mod Actions
