-- ===== src/Http/Response.antt =====
-- src/http/response.rs: responses and their form on the wire.
use nwarp.Effect.{Effect, Client, write_all}
use nwarp.Rust.Io.{ErrorKind}
use nwarp.Base.{ℕ, List, [], ◌∷◌, ◌++◌, Option, length}
use nwarp.Rust.Str.{Str, lit}
use nwarp.Rust.Utf8.{Bytes, as_bytes}
use nwarp.Rust.Num.{decimal}

pub record Response : Type 0 where
  pub status_code : ℕ
  pub status_text : Str
  pub content_type : Str
  pub body : Bytes
  pub server_name : Str

-- `Response::new`.
unfoldable pub new : ℕ → Str → Str → Response
new status_code status_text server_name = record {
  status_code = status_code;
  status_text = status_text;
  content_type = lit "text/plain";
  body = [];
  server_name = server_name;
}

-- `Response::ok`.
unfoldable pub ok_response : Str → Response
unfolding new
ok_response = new 200 (lit "OK")

unfoldable pub set_html_body : Str → Response → Response
set_html_body html r = record r {
  content_type = lit "text/html; charset=utf-8";
  body = as_bytes html;
}

unfoldable pub set_body : Bytes → Str → Response → Response
set_body bytes content_type r = record r { content_type = content_type; body = bytes }

-- `page`: the body of an error response.
unfoldable pub page : ℕ → Str → Str → Str
page code text server_name =
    lit "<!DOCTYPE html>\n<html>\n<head><title>"
    ++ (decimal code
        ++ (lit " "
            ++ (text
                ++ (lit
                      "</title></head>\n<body style=\"font-family:'Geist',ui-sans-serif,-apple-system,'Segoe UI',sans-serif;background:#F7F8F9;color:#1A1A1A;text-align:center;margin:0;padding-top:12%;\">\n<h1 style=\"font-size:2.2rem;\">"
                    ++ (decimal code
                        ++ (lit " <span style=\"color:#0066FF;\">"
                            ++ (text
                                ++ (lit
                                      "</span></h1>\n<hr style=\"border-color:#FF7A1A;width:120px;border-width:2px 0 0;\">\n<p style=\"color:#6B7280;\">"
                                    ++ (server_name
                                        ++ lit
                                            "</p>\n<p style=\"color:#9CA3AF;font-size:0.85em;\"><a href=\"https://github.com/NethumWelikada\" style=\"color:#9CA3AF;\">Nethum Welikada</a> &middot; Master of Engineering in Internetworking<br>Dalhousie University &middot; Halifax, Nova Scotia, Canada</p>\n</body>\n</html>\n")))))))))

unfoldable pub error_page : ℕ → Str → Str → Response
unfolding new set_html_body
error_page code text server_name =
    set_html_body (page code text server_name) (new code text server_name)

unfoldable pub not_found_response : Str → Response
unfolding error_page
not_found_response = error_page 404 (lit "Not Found")

unfoldable pub forbidden : Str → Response
unfolding error_page
forbidden = error_page 403 (lit "Forbidden")

unfoldable pub internal_error : Str → Response
unfolding error_page
internal_error = error_page 500 (lit "Internal Server Error")

unfoldable pub bad_gateway : Str → Response
unfolding error_page
bad_gateway = error_page 502 (lit "Bad Gateway")

unfoldable pub service_unavailable : Str → Response
unfolding error_page
service_unavailable = error_page 503 (lit "Service Unavailable")

-- The header block that `send` writes before the body.
unfoldable pub head : Response → Str
head r =
    lit "HTTP/1.1 "
    ++ (decimal r.status_code
        ++ (lit " "
            ++ (r.status_text
                ++ (lit "\r\nServer: "
                    ++ (r.server_name
                        ++ (lit "\r\nContent-Type: "
                            ++ (r.content_type
                                ++ (lit "\r\nContent-Length: "
                                    ++ (decimal (length r.body)
                                        ++ lit "\r\nConnection: close\r\n\r\n")))))))))

-- What a client reads when every write of `send` succeeds.
unfoldable pub wire : Response → Bytes
wire r = as_bytes (head r) ++ r.body

-- `Response::send`.
unfoldable pub send : Client → Response → List Effect × Option ErrorKind
unfolding head
send client r = write_all client (as_bytes (head r) ∷ r.body ∷ [])
