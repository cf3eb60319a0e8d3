-- ===== src/Lib.antt =====
-- rdesktop, a client of the Remote Desktop Protocol (rdesktop-master/): its core in a model and what
-- holds of it.
--
-- The client reads packets from the server into a STREAM, peels off the layers of the protocol, and
-- hands what is left to its parts: drawing orders (orders.c), which look bitmaps, glyphs and brushes up
-- in the caches (cache.c) and call the user interface; virtual channels (channels.c), whose chunks are
-- put together for the channel's own code; and bulk data, which mppc.c expands into a history first.
--
-- Base       helpers: tests on numbers, lists and memory, and `Option` as code that may touch memory
--            outside an allocation (`none`).
-- Stream     parse.h. A STREAM is a record of its memory and of offsets into it; each macro is a
--            function. Stream/Reading, Stream/Unread, Stream/Writing and Stream/Splice are their
--            lemmas.
-- Tcp        tcp.c. The socket, with or without OpenSSL, is a script: what each read gives and each
--            write takes, and Reply says how a call ends (Tcp/State). Tcp/Receiving and Tcp/Sending are
--            about a connection that works, Tcp/Appending about the stream that tcp_recv goes on from,
--            Tcp/Broken about a socket that fails or is never ready again.
-- Iso        iso.c. Iso/Packets has the headers, Iso/Connect is iso_connect, over a list of connection
--            attempts: each retry takes the next one. Iso/Receiving, Iso/Framing and Iso/Sending are
--            about single packets.
-- Mcs        mcs.c. Mcs/Packets has the bodies of its packets, as they are written and read, Mcs/Initial,
--            Mcs/Sending and Mcs/Requests the bytes sent, Mcs/Confirms and Mcs/Data what is read;
--            Mcs/Exchange, Mcs/Connecting and Mcs/Failing are about mcs_connect_finalize.
-- Rdp        rdp.c, what it sends, and sec_init of secure.c: Rdp/Capabilities has the capability sets and
--            Rdp/Bodies the bodies of the PDUs; Rdp/Sets, Rdp/Confirm, Rdp/Events and Rdp/Enumeration
--            are their bytes, Rdp/Sending the header that data PDUs share.
-- Secure     secure.c, the reading of the connect response: sec_process_mcs_data and the server's version.
--            sec_process_crypt_info is a parameter. The loop runs on fuel: a block is of five bytes at
--            least, so one turn for each byte that is left is enough (Secure/Termination). Secure/Wire
--            has the blocks on the wire, Secure/Blocks what is made of them.
-- Updates    rdp.c, what it receives, and rdp5.c. The module itself has the updates of screen and pointer,
--            Updates/Parts the parts of fast-path packets, Updates/Pdus the data PDUs and the redirection
--            PDU, Updates/Machine and Updates/Loop rdp_recv and rdp_loop, over a list of what sec_recv
--            gives. rdp5_process runs on fuel: a part is of three bytes at least, so one turn for each
--            byte that is left is enough, which Updates/Framing uses. rdp_loop's fuel is an argument, as
--            no number is enough for each packet (Updates/Endless).
-- Activation rdp.c, the answer to a demand active PDU and the capability sets that it brings;
--            Activation/Exchange has process_demand_active, which joins what Rdp sends and what Updates
--            receives, and rdp_main_loop, where it is the parameter of rdp_loop; that runs on fuel too, a
--            round for each rdp_loop. Activation/Sets is about the sets, Activation/Answer and
--            Activation/Order about the exchange.
-- Asn        asn.c. Asn/Headers has the bytes of a header, Asn/RoundTrip reads them back.
-- Channels   channels.c. channel_send gives the packets for the secure layer (sec_send_to_channel of
--            secure.c), whose headers and cipher text overwrite memory by the function `scramble`.
--            Channels/Sending finds the packets, Channels/Receiving what channel_process does with
--            one, Channels/RoundTrip connects the two.
-- Mppc       mppc.c. mppc_expand and its main loop, one function for each block of the loop's body.
--            The loop runs on fuel: each round uses a bit at least, so 8 * clen + 1 rounds are enough,
--            which Mppc/Safety uses. Mppc/Endings has the ways to end, Mppc/Progress the use of bits.
-- Cache      cache.c. The caches for fonts, text, cursors and brushes; Cache/Desktop is the desktop
--            cache and Cache/Bitmaps the bitmap caches with their lists, whose links Cache/Order and
--            Cache/Recency compare with a list in the order of use.
-- Bitmap     bitmap.c. Bitmap/Reading has the heads of orders, Bitmap/Statements what each does to a pixel,
--            the module itself the loops, Bitmap/Planes bitmaps of 32 bits and bitmap_decompress. The
--            loops run on fuel, a round for each pixel, line or byte of input: Bitmap/Safety is about
--            those for 1, 2 and 3 bytes per pixel, and each round over a line of a plane takes a byte
--            of input. Bitmap/Keeping and Bitmap/Heads are about the pieces.
-- Orders     orders.c and orders.h. Orders/State has the orders kept, Orders/Fields their fields,
--            Orders/Blits and Orders/Shapes read them, Orders/Points the points of polygons,
--            Orders/Draw the calls they make, Orders/Dispatch is process_orders. Its parameter `handle`
--            is handle_secondary of Orders/Handlers, for which Orders/Pictures and Orders/Brushes have
--            the handlers of secondary orders, with bitmap_decompress and the caches.
--
-- The modules named Runs hold runs at concrete data.
--
-- Numbers of the program are natural numbers below 2^w; a signed one is its bit pattern. The wire is
-- little-endian as on the machines the client runs on.
--
-- Not modelled: of the secure layer (secure.c) the ciphers, keys and certificates and the framing:
-- sec_process_crypt_info is a parameter of sec_process_mcs_data, which itself is one of
-- mcs_connect_finalize, and sec_send is one of what rdp.c sends; licence.c, the logon PDU and
-- rdp_connect of rdp.c; rdp_in_unistr without iconv, whose conversion is a parameter; and pstcache.c,
-- whose load is a parameter of cache_get_bitmap. The calls of sockets and OpenSSL are scripts of what
-- they give. Devices, sound and the user interfaces are calls of other systems. Messages to the user
-- and debug output are left out.
pub mod Base
pub mod Stream
pub mod Tcp
pub mod Iso
pub mod Mcs
pub mod Rdp
pub mod Secure
pub mod Asn
pub mod Channels
pub mod Mppc
pub mod Cache
pub mod Orders
pub mod Bitmap
pub mod Updates
pub mod Activation
