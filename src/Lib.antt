-- ===== src/Lib.antt =====
-- The C program of this package feed: the shadowsocksr-libev server, in
-- helloworld/shadowsocksr-libev/src/server/. The rest of the feed builds packages of other
-- projects and configures a router; it is not modelled.
--
-- The server accepts a connection (server.c), asks the access lists and the list of failed
-- addresses about the peer (acl.c, over rule.c and the cache of cache.c), and undoes the
-- obfuscation and the protocol of the stream through a table of functions (obfs.c: verify.c with
-- crc32.c and obfsutil.c is the protocol verify_simple). It reads the host of a TLS or HTTP
-- stream (tls.c, http.c), and its configuration at the start (jconf.c, with the numbers of utils.c).
-- The decoded stream starts with a header that names a target (server.c, with the test of a host
-- name in netutils.c); then the callbacks of server.c pass the data on, in chunks with a hash where
-- the connection is authenticated (encrypt.c).
--
-- Which file models which part:
--   Prelude        names that the others share, Boolean tests, lists, bits and words, C strings
--   Crc32          crc32.c: init_crc32_table, crc32, fillcrc32, adler32 and their checks
--   Xorshift       obfsutil.c: init_shift128plus, xorshift128plus
--   HeadSize       obfsutil.c: get_head_size; Header compares it with the header that server.c reads
--   VerifySimple   verify.c: verify_simple_pack_data, client_pre_encrypt, server_post_decrypt
--                  and their twins; Packet and RoundTrip follow a stream, Safety any bytes,
--                  Attack a packet that is made to do harm
--   Tls            tls.c: parse_tls_header, parse_extensions, parse_server_name_extension;
--                  Safety for any packet, ClientHello for a well-formed one
--   Cache          cache.c: every function; Hashing states what uthash documents; Bound, Order,
--                  Recency and Expiry follow the order of the entries
--   Http           http.c: parse_http_header, get_header, next_header; Headers follows the lines of
--                  a request, Host gives its name
--   Utils          utils.c: ss_itoa, ss_isnumeric, ss_strndup
--   Rule           rule.c: new_rule, accept_rule_arg, init_rule, lookup_rule
--   Acl            acl.c: init_acl (Lines has its text functions, Written the files it reads), acl_match_host, acl_add_ip,
--                  acl_remove_ip; BlockList has the list of failed addresses and the decision of
--                  accept_cb in server.c
--   Jconf          jconf.c: Value has parse_addr and to_string, Options what each option sets,
--                  Jconf the loop of read_jconf
--   Obfs           obfs.c: new_obfs_class
--   Relay          server.c: parse_header_len, is_header_complete; Request is STAGE_PARSE of
--                  server_recv_cb, Callbacks the state of a connection (server_t, remote_t), Receive
--                  server_recv_cb, Transfer server_send_cb, remote_recv_cb, remote_send_cb,
--                  server_resolve_cb, server_timeout_cb and new_server. Header, RoundTrip and Safety
--                  are about the header and its parser; Stages, Watchers, Reception, Parsing, Lifetime
--                  and Directions about what a connection comes to; Handshake about a header in parts
--   Chunk          encrypt.c: ss_check_hash, ss_gen_hash; Stream is the consumer that describes
--                  them, Memory, Round, Finish and Refine follow the loop on its buffers
--   Netutils       netutils.c: validate_hostname; Hostname describes a host name by its labels
--   Udp            udprelay.c: construct_udprealy_header, parse_udprealy_header
--   Ticket         tls1.2_ticket.c: client_encode and server_decode behind the handshake; Encoding has
--                  the records that are made, Decoding and Left what a call reads and leaves
--   Clist          list.c: additions, deletions, changes and tests; Chain has its invariant
--
-- State is passed on explicitly: the generator of obfsutil.c, the receive buffer of a
-- connection, the cache, the access lists, the block list with the store of its counters. Bytes,
-- characters and C integers are natural numbers, with the wrap-around of unsigned words written
-- out; a buffer is the list of its bytes, and a read outside it is a result of its own (fault,
-- overread) where the code could make one. An error code is a constructor or the number's
-- magnitude.
--
-- Fuel: the loops of verify.c take at least 7 or 2000 bytes a round and get one round more than
-- there are bytes; the loops of tls.c move by at least 3 bytes and get one round more than there
-- are bytes. The theorems that return a result show that this fuel is enough. ss_itoa gets the 20
-- places of its buffer, and an int has 10 digits. The loop of http.c moves by at least 2 bytes.
-- The loop over the labels of a host name moves by at least 1 byte and gets a round for each; the
-- loop of ss_check_hash has a round for each byte. The loops of tls1.2_ticket.c take at least 1 byte
-- (client_encode) or 5 bytes (server_decode) a round and get one round more than there are bytes.
--
-- Parameters, with what the code relies on: uthash's table (Cache.Hashing.Uthash) and the clock,
-- libcork's addresses and ipset's sets (Acl.Net, Acl.Match.IpSetLaws), PCRE2 (Rule.Pcre), and the
-- JSON parser and the file that read_jconf reads; the HMAC and what realloc leaves in new memory
-- (Chunk.Settings); what the relay calls (Relay.Request.Services, Relay.Callbacks.Calls): sockets, the
-- plugins, the cipher, libcork's addresses, udns's submission of a query, and of this program so far
-- ss_encrypt, ss_decrypt, ss_onetimeauth_verify and the access lists' test of a host. malloc does not fail, except where an argument
-- says that it can.
--
-- Not modelled: the start of the server, its sockets and timers (server.c but for the decision on a
-- peer and the callbacks of a connection), the UDP relay but for its header (udprelay.c), name resolution
-- (resolv.c but for resolv_query, netutils.c but for validate_hostname), encryption (encrypt.c but for the chunks), the plugins of
-- auth.c and http_simple.c, the handshake of tls1.2_ticket.c, the firewall's shell commands of acl.c, base64.c, and
-- list_sort of list.c. json.c, json.h and uthash.h are copies of other projects.
-- The copy of the program in openwrt-passwall-packages/ differs only in server.c and the build.
pub mod Prelude
pub mod Crc32
pub mod Xorshift
pub mod VerifySimple
pub mod Tls
pub mod Cache
pub mod Utils
pub mod Rule
pub mod Acl
pub mod Jconf
pub mod Http
pub mod Obfs
pub mod Clist
pub mod Relay
pub mod Netutils
pub mod Chunk
pub mod Udp
pub mod Ticket
pub mod HeadSize
